-- ===== src/Bytes/Join/Contents.antt =====
-- What `byteThing_val2bytes` (modules/binary/bytethings.c) gives for values that stand for bytes.
use mathlib.Core.List.{append_assoc, append-nil}
use gpsee.Base.{
  ℕ, ◌+◌, ◌-◌, ◌^◌, ◌<◌, ◌≡◌, refl, sym, ap, false, List, [], ◌∷◌, ◌++◌, Option, some, arith,
  length, take, drop, length-append, length-drop, append-take, length-take, drop_front,
}
use gpsee.Bytes.{Double, ok, number2byte}
use gpsee.Bytes.Copy.{Engine, Memory, copied, copy_JsArray}
use gpsee.Bytes.Copy.Stable.{IsStable, copy_JsArray-into}
use gpsee.Bytes.Join.{
  Value, array, bytes, scalar, Joining, Joined, joined, make_room, make_double, put_copied,
  put_array, join_array, join_value, join_values, val2bytes,
}
use gpsee.Bytes.Join.Buffer.{
  IsGranting, HasText, HasSpace, front, make_room-HasSpace, make_double-HasSpace, HasText-put,
  put_bytes-IsPut, trim-HasText,
}

-- The bytes that a value stands for.
pub data IsContent {W : Type 0} : Value W → List ℕ → Type 0 where
  one_byte :
      {d : Option Double} {byte : ℕ} → number2byte d ≡ ok byte → IsContent (scalar d) (byte ∷ [])
  byte_thing : (bs : List ℕ) → IsContent (bytes bs) bs
  fixed_array : {engine : Engine W} {bs : List ℕ} → IsStable engine bs → IsContent (array engine) bs

pub data AreContents {W : Type 0} : List (Value W) → List ℕ → Type 0 where
  nil : AreContents [] []
  cons :
      {v : Value W} {vs : List (Value W)} {bs rest : List ℕ}
      → IsContent v bs
      → AreContents vs rest
      → AreContents (v ∷ vs) (bs ++ rest)

module _ (memory : Memory) (grant : IsGranting memory) where
  module _ {W : Type 0} (w : W) where
    abbrev IsPutAt : List ℕ → Joined × W → Type 0
    IsPutAt text out = (j : Joining) × (out ≡ (joined j, w)) × HasText text 0 j

    copied_behind :
        (engine : Engine W) (text bs : List ℕ) (j : Joining) (h : HasText text (length bs) j)
        → IsStable engine bs
        → length text + length bs < 2 ^ 30
        → copy_JsArray engine memory 0 (some (drop j.pos j.buf, j.buf_len - j.pos)) w
          ≡ (copied (bs ++ drop (length bs) h.rest) (length bs) false, w)
    copied_behind engine text bs j h stable fits =
        let left = drop (length bs) h.rest in
        let behind : drop j.pos j.buf ≡ take (length bs) h.rest ++ left =
          rw (h.buffer, h.at, drop_front text h.rest) (sym (append-take (length bs) h.rest)) in
        let size : j.buf_len - j.pos ≡ length bs + length left =
          omega (arith, h.at, h.whole, h.room, length-drop (length bs) h.rest) in
        rw (behind, size)
          (copy_JsArray-into engine memory bs (take (length bs) h.rest) left w stable
            (length-take (length bs) h.rest (omega (arith, h.whole, h.room)))
            (omega (arith, h.small, h.whole, h.room, length-drop (length bs) h.rest, fits)))

    put_array-IsPutAt :
        (engine : Engine W) (text bs : List ℕ) (o : Option Joining)
        → HasSpace text (length bs) o
        → IsStable engine bs
        → length text + length bs < 2 ^ 30
        → IsPutAt (text ++ bs) (put_array memory engine o w)
    unfolding put_array put_copied
    put_array-IsPutAt engine text bs o (j, e, h) stable fits =
        let c = copied_behind engine text bs j h stable fits in
        rw (e, put_array, c, put_copied)
          (
            _,
            ap (λ t. (t, w))
                (ap joined (
                  rw
                    (
                      front text (length bs) j h,
                      h.at,
                      append_assoc text bs (drop (length bs) h.rest),
                    )
                    refl)),
            HasText-put memory grant text bs j h,
          )

    join_value-IsPutAt :
        (v : Value W) (text bs : List ℕ) (j : Joining)
        → IsContent v bs
        → HasText text 0 j
        → length text + length bs < 2 ^ 30
        → IsPutAt (text ++ bs) (join_value memory v j w)
    unfolding join_value join_array
    join_value-IsPutAt _ text _ j (byte_thing bs) h fits =
        let (j₁, e, h₁) =
          put_bytes-IsPut memory grant text bs (make_room memory (length bs) j)
            (make_room-HasSpace memory grant text (length bs) j h) in
        (j₁, ap (λ t. (t, w)) e, h₁)
    join_value-IsPutAt _ text _ j (one_byte {byte = byte} e) h fits =
        let (j₁, e₁, h₁) =
          put_bytes-IsPut memory grant text (byte ∷ []) (make_double memory j)
            (make_double-HasSpace memory grant text j h) in
        (j₁, ap (λ t. (t, w)) (rw e e₁), h₁)
    join_value-IsPutAt _ text bs j (fixed_array {engine = engine} stable) h fits =
        rw (stable.same_length w) (
          put_array-IsPutAt engine text bs (make_room memory (length bs) j)
            (make_room-HasSpace memory grant text (length bs) j h) stable fits)

    join_values-IsPutAt :
        (vs : List (Value W)) (text bs : List ℕ) (j : Joining)
        → AreContents vs bs
        → HasText text 0 j
        → length text + length bs < 2 ^ 30
        → IsPutAt (text ++ bs) (join_values memory vs j w)
    unfolding join_values
    join_values-IsPutAt _ text _ j nil h fits = (j, refl, rw (append-nil text) h)
    join_values-IsPutAt _ text _ j (cons {v = v} {vs = vs} {bs = bs} {rest = rest} c cs) h fits =
        let (j₁, e, h₁) =
          join_value-IsPutAt v text bs j c h (omega (arith, length-append bs rest, fits)) in
        let (j₂, e₂, h₂) =
          join_values-IsPutAt vs (text ++ bs) rest j₁ cs h₁
            (omega (arith, length-append text bs, length-append bs rest, fits)) in
        (j₂, rw (join_values, e, e) e₂, rw (← append_assoc text bs rest) h₂)

-- For bytes, byte strings and arrays, and stable arrays of bytes, byteThing_val2bytes, behind its
-- shortcut, gives a buffer of just their bytes, one value behind the other, if these are some and less
-- than 2 ^ 30, and if the allocator gives every block and keeps what is in it.
pub val2bytes-AreContents :
    {W : Type 0} (memory : Memory) (values : List (Value W)) (bs : List ℕ) (w : W)
    → IsGranting memory
    → AreContents values bs
    → 0 < length bs
    → length bs < 2 ^ 30
    → val2bytes memory values w
      ≡ (some (joined (record { buf = bs; buf_len = length bs; pos = length bs })), w)
unfolding val2bytes
val2bytes-AreContents memory values bs w grant contents some_text fits =
    let (block, got, size) = grant.first in
    let (j, e, h) =
      join_values-IsPutAt memory grant w values [] bs
        (record { buf = block; buf_len = 64; pos = 0 }) contents
        (record {
          rest = block;
          buffer = refl;
          at = refl;
          whole = omega (arith, size);
          some_room = omega arith;
          room = omega arith;
          small = omega arith;
        })
        (omega (arith, fits)) in
    rw (val2bytes, got, e) (ap (λ o. (o, w)) (trim-HasText memory grant bs j h some_text))
