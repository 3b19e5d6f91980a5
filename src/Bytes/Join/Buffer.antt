-- ===== src/Bytes/Join/Buffer.antt =====
-- The buffer of `byteThing_val2bytes` (modules/binary/bytethings.c) with the bytes that have been put into
-- it.
use mathlib.Core.List.{append-nil}
use gpsee.Base.{
  ℕ, ◌+◌, ◌*◌, ◌≤◌, ◌<◌, ◌≡◌, inl, inr, refl, sym, ap, true, List, [], ◌++◌, Option, some, arith,
  ltb, leb, Bool-cases, length, take, drop, length-append, length-drop, nil_of_length, take_all,
  take_front, drop-append,
}
use gpsee.Bytes.Copy.{Memory}
use gpsee.Bytes.Join.{Joining, Joined, joined, regrow, make_room, make_double, put_bytes, trim}

-- The allocator gives every block that is asked for, and the bytes of the old one stand at the start
-- of the new one, as far as they fit.
pub record IsGranting (memory : Memory) : Type 0 where
  pub first : (block : List ℕ) × (memory.malloc 64 ≡ some block) × (length block ≡ 64)
  pub grants :
      (before rest : List ℕ) (n : ℕ)
      → 0 < n
      → length before ≤ n
      → (after : List ℕ) × (memory.realloc (before ++ rest) n ≡ some (before ++ after))
        × (length before + length after ≡ n)

-- The text stands in the buffer up to `bufpos`, with room for so many bytes behind it, and the buffer
-- is not too large for a `jsuint` as long as the text is not.
pub record HasText (text : List ℕ) (need : ℕ) (j : Joining) : Type 0 where
  pub rest : List ℕ
  pub buffer : j.buf ≡ text ++ rest
  pub at : j.pos ≡ length text
  pub whole : length text + length rest ≡ j.buf_len
  pub some_room : 0 < j.buf_len
  pub room : length text + need ≤ j.buf_len
  pub small : j.buf_len ≤ 64 + 2 * (length text + need)

abbrev pub HasSpace : List ℕ → ℕ → Option Joining → Type 0
HasSpace text need o = (j : Joining) × (o ≡ some j) × HasText text need j

-- The text stands in what a value leaves.
abbrev pub IsPut : List ℕ → Joined → Type 0
IsPut text t = (j : Joining) × (t ≡ joined j) × HasText text 0 j

more_room :
    (text : List ℕ) (need : ℕ) (j : Joining)
    → HasText text 0 j
    → length text + need ≤ j.buf_len
    → HasText text need j
more_room text need j h le = record {
  rest = h.rest;
  buffer = h.buffer;
  at = h.at;
  whole = h.whole;
  some_room = h.some_room;
  room = le;
  small = omega (arith, h.small);
}

pub front : (text : List ℕ) (need : ℕ) (j : Joining) → HasText text need j → take j.pos j.buf ≡ text
front text need j h =
    rw (h.buffer, h.at, take_front (length text) text h.rest (omega arith)) (take_all text)

module _ (memory : Memory) (grant : IsGranting memory) where
  regrow-HasSpace :
      (text : List ℕ) (n need : ℕ) (j : Joining)
      → HasText text 0 j
      → 0 < n
      → length text + need ≤ n
      → n ≤ 64 + 2 * (length text + need)
      → HasSpace text need (regrow memory n j (memory.realloc j.buf n))
  regrow-HasSpace text n need j h pos fits small =
      let (after, e, len) = grant.grants text h.rest n pos (omega (arith, fits)) in
      rw (h.buffer, e)
        (
          _,
          refl,
          record {
            rest = after;
            buffer = refl;
            at = h.at;
            whole = len;
            some_room = pos;
            room = fits;
            small = small;
          },
        )

  pub make_room-HasSpace :
      (text : List ℕ) (need : ℕ) (j : Joining)
      → HasText text 0 j
      → HasSpace text need (make_room memory need j)
  unfolding make_room
  make_room-HasSpace text need j h = elim (Bool-cases (ltb j.buf_len (j.pos + need))) [
    | inl g ↦
        let lt : j.buf_len < length text + need = ground (arith, g, h.at) in
        rw (make_room, g)
          (regrow-HasSpace text (j.pos + need) need j h (omega (arith, lt, h.at))
            (omega (arith, h.at)) (omega (arith, h.at)))
    | inr g ↦
        let le : length text + need ≤ j.buf_len = ground (arith, g, h.at) in
        rw (make_room, g) (j, refl, more_room text _ j h le)
  ]

  pub make_double-HasSpace :
      (text : List ℕ) (j : Joining) → HasText text 0 j → HasSpace text 1 (make_double memory j)
  unfolding make_double
  make_double-HasSpace text j h = elim (Bool-cases (leb j.buf_len j.pos)) [
    | inl g ↦
        let le : j.buf_len ≤ length text = ground (arith, g, h.at) in
        rw (make_double, g)
          (regrow-HasSpace text (j.buf_len * 2) 1 j h (omega (arith, h.some_room))
            (omega (arith, h.some_room, h.room)) (omega (arith, le)))
    | inr g ↦
        let le : length text + 1 ≤ j.buf_len = ground (arith, g, h.at) in
        rw (make_double, g) (j, refl, more_room text _ j h le)
  ]

  -- Bytes behind the text, over what stood there.
  spliced :
      (text bs rest : List ℕ)
      → take (length text) (text ++ rest) ++ bs ++ drop (length text + length bs) (text ++ rest)
        ≡ (text ++ bs) ++ drop (length bs) rest
  spliced text bs rest =
      rw
        (
          take_front (length text) text rest (omega arith),
          take_all text,
          drop-append text rest (length bs),
        )
        refl

  pub HasText-put :
      (text bs : List ℕ) (j : Joining) (h : HasText text (length bs) j)
      → HasText (text ++ bs) 0 (record j {
        buf = (text ++ bs) ++ drop (length bs) h.rest;
        pos = length text + length bs;
      })
  HasText-put text bs j h = record {
    rest = drop (length bs) h.rest;
    buffer = refl;
    at = sym (length-append text bs);
    whole = omega (arith, length-append text bs, length-drop (length bs) h.rest, h.whole, h.room);
    some_room = h.some_room;
    room = omega (arith, length-append text bs, h.room);
    small = omega (arith, length-append text bs, h.small);
  }

  pub put_bytes-IsPut :
      (text bs : List ℕ) (o : Option Joining)
      → HasSpace text (length bs) o
      → IsPut (text ++ bs) (put_bytes memory bs o)
  unfolding put_bytes
  put_bytes-IsPut text bs o (j, e, h) =
      let fits : leb (length text + length bs) (length (text ++ h.rest)) ≡ true =
        ground (arith, length-append text h.rest, h.whole, h.room) in
      rw (e, put_bytes, h.buffer, h.at, fits)
        (_, ap joined (rw (spliced text bs h.rest) refl), HasText-put text bs j h)

  pub trim-HasText :
      (text : List ℕ) (j : Joining)
      → HasText text 0 j
      → 0 < length text
      → trim memory (joined j)
        ≡ some (joined (record { buf = text; buf_len = length text; pos = length text }))
  unfolding trim
  trim-HasText text j h some_text =
      let (after, e, len) = grant.grants text h.rest (length text) some_text (omega arith) in
      let none_left : after ≡ [] = nil_of_length after (omega (arith, len)) in
      rw (trim, h.buffer, h.at, e, none_left, append-nil text, h.at) refl
