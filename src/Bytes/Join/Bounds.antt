-- ===== src/Bytes/Join/Bounds.antt =====
-- `byteThing_val2bytes` (modules/binary/bytethings.c) stays in its buffer.
use gpsee.Base.{
  ℕ, ◌+◌, ◌-◌, ◌*◌, ◌≤◌, ◌<◌, ◌≡◌, ◌⊎◌, inl, inr, refl, ◌∙◌, true, false, List, [], ◌∷◌, ◌++◌,
  Option, none, some, arith, ltb, leb, Bool-cases, Option-cases, length, take, drop, length-append,
  length-take, length-drop,
}
use gpsee.Bytes.{Result, ok, thrown, number2byte}
use gpsee.Bytes.Copy.{Engine, Memory, Copied, copied, failed}
use gpsee.Bytes.Copy.Turns.{IsPlatform}
use gpsee.Bytes.Copy.Bounds.{IsWithin, copy_JsArray-IsWithin}
use gpsee.Bytes.Join.{
  Value, array, bytes, object, null, scalar, Joining, Joined, joined, refused, past, crashed, again,
  regrow, make_room, make_double, put_bytes, put_copied, put_array, join_array, join_number,
  join_value, join_values, trim, val2bytes,
}

-- `bufpos` is inside the buffer, whose length is the one that is kept.
pub record IsSound (j : Joining) : Type 0 where
  pub in_buffer : j.pos ≤ j.buf_len
  pub same : length j.buf ≡ j.buf_len
  pub some_room : 0 < j.buf_len

-- There is room for so many bytes.
abbrev HasSpace : ℕ → Option Joining → Type 0
HasSpace need none = Unit
HasSpace need (some j) = IsSound j × (j.pos + need ≤ j.buf_len)

abbrev IsSafe : Joined → Type 0
IsSafe (joined j) = IsSound j
IsSafe refused = Unit
IsSafe past = ⊥
IsSafe crashed = ⊥
IsSafe again = ⊥

-- Bytes put over others leave the length.
length-spliced :
    (at : ℕ) (bs block : List ℕ)
    → at + length bs ≤ length block
    → length (take at block ++ bs ++ drop (at + length bs) block) ≡ length block
length-spliced at bs block le = omega (
  arith,
  length-append (take at block ++ bs) (drop (at + length bs) block),
  length-append (take at block) bs,
  length-take at block (omega (arith, le)),
  length-drop (at + length bs) block,
  le,
)

-- The allocator gives blocks of the length that is asked for.
abbrev pub IsAllocator : Memory → Type 0
IsAllocator memory = (n : ℕ) (b b' : List ℕ) → memory.realloc b n ≡ some b' → length b' ≡ n

-- None of the values is null, the lengths of every array among them fit a `jsuint`, and the allocator
-- is as it should be.
abbrev pub ArePlatforms : {W : Type 0} → Memory → List (Value W) → Type 0
ArePlatforms memory [] = Unit
ArePlatforms memory (array engine ∷ vs) = IsPlatform engine memory × ArePlatforms memory vs
ArePlatforms memory (bytes bs ∷ vs) = ArePlatforms memory vs
ArePlatforms memory (object ∷ vs) = ArePlatforms memory vs
ArePlatforms memory (null ∷ vs) = ⊥
ArePlatforms memory (scalar d ∷ vs) = ArePlatforms memory vs

module _ (memory : Memory) (alloc : IsAllocator memory) where
  regrow-HasSpace :
      (n need : ℕ) (j : Joining)
      → j.pos + need ≤ n
      → 0 < n
      → HasSpace need (regrow memory n j (memory.realloc j.buf n))
  regrow-HasSpace n need j le pos = elim (Option-cases (memory.realloc j.buf n)) [
    | inl h ↦ rw h tt
    | inr (b, h) ↦
        rw h
          (record { in_buffer = omega (arith, le); same = alloc n j.buf b h; some_room = pos }, le)
  ]

  make_room-HasSpace :
      (need : ℕ) (j : Joining) → IsSound j → HasSpace need (make_room memory need j)
  unfolding make_room
  make_room-HasSpace need j sound = elim (Bool-cases (ltb j.buf_len (j.pos + need))) [
    | inl h ↦
        let lt : j.buf_len < j.pos + need = ground (arith, h) in
        rw (make_room, h) (regrow-HasSpace (j.pos + need) need j (omega arith) (omega (arith, lt)))
    | inr h ↦ rw (make_room, h) (sound, ground (arith, h))
  ]

  make_double-HasSpace : (j : Joining) → IsSound j → HasSpace 1 (make_double memory j)
  unfolding make_double
  make_double-HasSpace j sound = elim (Bool-cases (leb j.buf_len j.pos)) [
    | inl h ↦
        rw (make_double, h)
          (regrow-HasSpace (j.buf_len * 2) 1 j (omega (arith, sound.in_buffer, sound.some_room))
            (omega (arith, sound.some_room)))
    | inr h ↦ rw (make_double, h) (sound, ground (arith, h))
  ]

  put_bytes-IsSafe :
      (bs : List ℕ) (o : Option Joining) → HasSpace (length bs) o → IsSafe (put_bytes memory bs o)
  unfolding put_bytes
  put_bytes-IsSafe bs none space = tt
  put_bytes-IsSafe bs (some j) (sound, le) =
      let fits : leb (j.pos + length bs) (length j.buf) ≡ true = ground (arith, le, sound.same) in
      rw (put_bytes, fits)
        (record {
          in_buffer = le;
          same = length-spliced j.pos bs j.buf (omega (arith, le, sound.same)) ∙ sound.same;
          some_room = sound.some_room;
        })

  put_copied-IsSafe :
      (j : Joining) (c : Copied)
      → IsSound j
      → ((rest : List ℕ) × (len : ℕ) × (c ≡ copied rest len false)
          × IsWithin (some (drop j.pos j.buf, j.buf_len - j.pos)) rest len)
        ⊎ (c ≡ failed)
      → IsSafe (put_copied memory j c)
  unfolding put_copied
  put_copied-IsSafe j c sound (inr e) = rw (e, put_copied) tt
  put_copied-IsSafe j c sound (inl (rest, len, e, (same, le))) =
      rw (e, put_copied)
        (record {
          in_buffer = omega (arith, le, sound.in_buffer);
          same = omega (
            arith,
            length-append (take j.pos j.buf) rest,
            same,
            sound.in_buffer,
            sound.same,
            length-take j.pos j.buf (omega (arith, sound.in_buffer, sound.same)),
            length-drop j.pos j.buf,
          );
          some_room = sound.some_room;
        })

  join_number-IsSafe : (j : Joining) (r : Result ℕ) → IsSound j → IsSafe (join_number memory j r)
  join_number-IsSafe j (thrown e) sound = tt
  join_number-IsSafe j (ok byte) sound =
      put_bytes-IsSafe (byte ∷ []) (make_double memory j) (make_double-HasSpace j sound)

  joined_cases :
      (t : Joined) → IsSafe t → ((j : Joining) × (t ≡ joined j) × IsSound j) ⊎ (t ≡ refused)
  joined_cases (joined j) safe = inl (j, refl, safe)
  joined_cases refused safe = inr refl
  joined_cases past safe = absurd safe
  joined_cases crashed safe = absurd safe
  joined_cases again safe = absurd safe

  module _ {W : Type 0} where
    put_array-IsSafe :
        (engine : Engine W) (need : ℕ) (o : Option Joining) (w : W)
        → IsPlatform engine memory
        → HasSpace need o
        → IsSafe (put_array memory engine o w).0
    unfolding put_array
    put_array-IsSafe engine need none w plat space = tt
    put_array-IsSafe engine need (some j) w plat (sound, le) = put_copied-IsSafe j _ sound (
        copy_JsArray-IsWithin engine memory 0 (some (drop j.pos j.buf, j.buf_len - j.pos)) w plat
          (omega (arith, length-drop j.pos j.buf, sound.same)))

    join_array-IsSafe :
        (engine : Engine W) (j : Joining) (o : Option ℕ) (w : W)
        → IsPlatform engine memory
        → IsSound j
        → IsSafe (join_array memory engine j (o, w)).0
    unfolding join_array
    join_array-IsSafe engine j none w plat sound = tt
    join_array-IsSafe engine j (some n) w plat sound =
        put_array-IsSafe engine n (make_room memory n j) w plat (make_room-HasSpace n j sound)

    join_value-IsSafe :
        (v : Value W) (vs : List (Value W)) (j : Joining) (w : W)
        → ArePlatforms memory (v ∷ vs)
        → IsSound j
        → IsSafe (join_value memory v j w).0 × ArePlatforms memory vs
    unfolding join_value
    join_value-IsSafe (array engine) vs j w (plat, ps) sound = (
      join_array-IsSafe engine j (engine.array_length w).0 (engine.array_length w).1 plat sound,
      ps,
    )
    join_value-IsSafe (bytes bs) vs j w ps sound = (
      put_bytes-IsSafe bs (make_room memory (length bs) j) (make_room-HasSpace (length bs) j sound),
      ps,
    )
    join_value-IsSafe object vs j w ps sound = (tt, ps)
    join_value-IsSafe null vs j w ps sound = absurd ps
    join_value-IsSafe (scalar d) vs j w ps sound = (join_number-IsSafe j (number2byte d) sound, ps)

    join_values-IsSound :
        (vs : List (Value W)) (j : Joining) (w : W)
        → ArePlatforms memory vs
        → IsSound j
        → ((j₁ : Joining) × ((join_values memory vs j w).0 ≡ joined j₁) × IsSound j₁)
          ⊎ ((join_values memory vs j w).0 ≡ refused)
    unfolding join_values
    join_values-IsSound [] j w ps sound = inl (j, refl, sound)
    join_values-IsSound (v ∷ vs) j w ps sound =
        let (safe, rest) = join_value-IsSafe v vs j w ps sound in
        elim (joined_cases (join_value memory v j w).0 safe) [
          | inr e ↦ rw (join_values, e) (inr refl)
          | inl (j₁, e, sound₁) ↦
              rw (join_values, e)
                (join_values-IsSound vs j₁ (join_value memory v j w).1 rest sound₁)
        ]

-- Behind the cut: a buffer as long as the bytes that are counted, a failure, or the assertion.
abbrev IsCut : Option Joined → Type 0
IsCut result =
    ((j : Joining) × (result ≡ some (joined j)) × (length j.buf ≡ j.pos))
    ⊎ (result ≡ some refused)
    ⊎ (result ≡ none)

trim-IsCut :
    (memory : Memory) (t : Joined)
    → IsAllocator memory
    → ((j : Joining) × (t ≡ joined j) × IsSound j) ⊎ (t ≡ refused)
    → IsCut (trim memory t)
unfolding trim
trim-IsCut memory t alloc (inr e) = rw (e, trim) (inr (inl refl))
trim-IsCut memory t alloc (inl (j, e, sound)) = elim (Option-cases (memory.realloc j.buf j.pos)) [
  | inl h ↦ rw (e, trim, h) (inr (inr refl))
  | inr (b, h) ↦ rw (e, trim, h) (inl (_, refl, alloc j.pos j.buf b h))
]

-- byteThing_val2bytes, behind its shortcut, gives a buffer that is as long as the number of bytes that
-- it has counted into it, or fails, or finds no such buffer at its assertion, for any values of which
-- none is null and whatever the elements of arrays do, if the allocator gives blocks of the length that is asked for and the lengths of arrays
-- fit a jsuint: it never writes past the buffer, and each array takes one round.
pub val2bytes-IsCut :
    {W : Type 0} (memory : Memory) (values : List (Value W)) (w : W)
    → IsAllocator memory
    → ((b : List ℕ) → memory.malloc 64 ≡ some b → length b ≡ 64)
    → ArePlatforms memory values
    → ((j : Joining) × ((val2bytes memory values w).0 ≡ some (joined j)) × (length j.buf ≡ j.pos))
      ⊎ ((val2bytes memory values w).0 ≡ some refused)
      ⊎ ((val2bytes memory values w).0 ≡ none)
unfolding val2bytes
val2bytes-IsCut memory values w alloc first plats = elim (Option-cases (memory.malloc 64)) [
  | inl h ↦ rw (val2bytes, h) (trim-IsCut memory refused alloc (inr refl))
  | inr (b, h) ↦
      rw (val2bytes, h)
        (trim-IsCut memory _ alloc (
          join_values-IsSound memory alloc values (record { buf = b; buf_len = 64; pos = 0 }) w
            plats (record { in_buffer = omega arith; same = first b h; some_room = omega arith })))
]
