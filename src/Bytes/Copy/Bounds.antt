-- ===== src/Bytes/Copy/Bounds.antt =====
-- `copyJSArray_toBuf` (modules/binary/bytethings.c) on any array, whatever its elements do to its length:
-- it ends, and writes inside its buffer.
use gpsee.Base.{
  ℕ, zero, suc, ◌+◌, ◌^◌, ◌≤◌, ◌<◌, ◌≡◌, ◌⊎◌, inl, inr, refl, min, Bool, true, false, List, [],
  Option, none, some, arith, ltb, ◌==◌, Bool-cases, Option-cases, length,
}
use gpsee.Bytes.Copy.{
  Engine, Memory, u32, Copying, Copied, copied, failed, overrun, Turn, next, turn, copy_loop,
  rounds, copy_sized, empty, copy_JsArray,
}
use gpsee.Bytes.Copy.Turns.{IsPlatform, IsSound, IsSafe, turn-IsSafe}

module _ {W : Type 0} (engine : Engine W) (memory : Memory) (own : Bool) (size most : ℕ) where
  -- What the loop ends with: `*more` is never set, and what was stored is inside the buffer.
  abbrev pub IsEnded : Copied → Type 0
  IsEnded result =
      ((buf : List ℕ) × (len : ℕ) × (result ≡ copied buf len false)
        × (len ≤ length buf)
        × (own ≡ false → (length buf ≡ size) × (len ≤ most)))
      ⊎ (result ≡ failed)

  turn_cases :
      (t : Turn)
      → IsSafe own size most t
      → ((c : Copying) × (t ≡ next c) × IsSound own size most c) ⊎ (t ≡ failed)
  turn_cases (next c) safe = inl (c, refl, safe)
  turn_cases failed safe = inr refl
  turn_cases overrun safe = absurd safe

  copy_loop-IsEnded :
      (fuel start i : ℕ) (c : Copying) (w : W)
      → IsPlatform engine memory
      → i < 2 ^ 32
      → 2 ^ 32 ≤ i + fuel
      → IsSound own size most c
      → IsEnded (copy_loop engine memory own fuel start i c w).0
  unfolding copy_loop
  copy_loop-IsEnded zero start i c w plat lt enough sound = absurd (omega (arith, lt, enough))
  copy_loop-IsEnded (suc fuel) start i c w plat lt enough sound = elim (Bool-cases (ltb i c.stop)) [
    | inr h ↦
        let none_left : ltb c.arr_len c.stop ≡ false = ground (arith, sound.in_array) in
        rw (copy_loop, h, none_left)
          (inl (
            c.buf,
            c.stop,
            refl,
            sound.in_buffer,
            λ e. (sound.len_same e, omega (arith, sound.in_len, sound.len_inside e)),
          ))
    | inl h ↦
        let more : i < c.stop = ground (arith, h) in
        elim (turn_cases (turn engine memory own start i c w).0
          (turn-IsSafe engine memory own size most start i c w plat more sound)) [
            | inr e ↦ rw (copy_loop, h, e) (inr refl)
            | inl (c₁, e, sound₁) ↦
                rw (copy_loop, h, e)
                  (copy_loop-IsEnded fuel start (i + 1) c₁ (turn engine memory own start i c w).1
                    plat (omega (arith, more, sound.stop_fits)) (omega (arith, enough)) sound₁)
          ]
  ]

-- The caller's buffer holds what `*lenp` says.
abbrev pub HasRoom : Option (List ℕ × ℕ) → Type 0
HasRoom none = Unit
HasRoom (some (buf, len)) = len ≤ length buf

-- The caller's buffer keeps its length, and not more than `*lenp` bytes of it are used.
abbrev pub IsWithin : Option (List ℕ × ℕ) → List ℕ → ℕ → Type 0
IsWithin none buf len = len ≤ length buf
IsWithin (some (before, most)) buf len = (length buf ≡ length before) × (len ≤ most)

abbrev IsCopied : Option (List ℕ × ℕ) → Copied → Type 0
IsCopied given result =
    ((buf : List ℕ) × (len : ℕ) × (result ≡ copied buf len false) × IsWithin given buf len)
    ⊎ (result ≡ failed)

module _ {W : Type 0} (engine : Engine W) (memory : Memory) (start : ℕ) where
  copy_sized-IsCopied :
      (given : Option (List ℕ × ℕ)) (arr_len : ℕ) (w : W)
      → IsPlatform engine memory
      → arr_len < 2 ^ 32
      → HasRoom given
      → IsCopied given (copy_sized engine memory start given arr_len w).0
  unfolding copy_sized
  copy_sized-IsCopied none arr_len w plat fits room = elim (Option-cases (memory.malloc arr_len)) [
    | inl h ↦ rw (copy_sized, h) (inr refl)
    | inr (buf, h) ↦
        let len = plat.length-malloc arr_len buf h in
        elim (copy_loop-IsEnded engine memory true 0 0 rounds start 0
          (record { buf = buf; buf_len = arr_len; arr_len = arr_len; stop = arr_len }) w plat
          (omega arith) (omega arith)
          (record {
            stop_fits = fits;
            in_array = omega arith;
            in_buffer = omega (arith, len);
            in_len = omega arith;
            len_inside = λ e. cc;
            len_fits = λ e. cc;
            len_same = λ e. cc;
          })) [
            | inl (b, n, e, le, out) ↦ rw (copy_sized, h) (inl (b, n, e, le))
            | inr e ↦ rw (copy_sized, h) (inr e)
          ]
  ]
  copy_sized-IsCopied (some (buf, most)) arr_len w plat fits room =
      elim (copy_loop-IsEnded engine memory false (length buf) most rounds start 0
        (record { buf = buf; buf_len = u32 most; arr_len = arr_len; stop = min (u32 most) arr_len })
        w plat (omega arith) (omega arith)
        (record {
          stop_fits = omega (arith, fits);
          in_array = omega arith;
          in_buffer = omega (arith, room);
          in_len = omega arith;
          len_inside = λ e. omega arith;
          len_fits = λ e. omega (arith, room);
          len_same = λ e. refl;
        })) [ inl (b, n, e, le, out) ↦ inl (b, n, e, out refl) | inr e ↦ inr e ]

  empty-IsCopied : (given : Option (List ℕ × ℕ)) → IsCopied given (empty engine memory start given)
  empty-IsCopied none = inl ([], 0, refl, omega arith)
  empty-IsCopied (some (buf, len)) = inl (buf, 0, refl, (refl, omega arith))

  -- copyJSArray_toBuf ends within 2 ^ 32 rounds, whatever the elements do to the length of the array
  -- while they are read, and writes inside its buffer: it fails, or gives a number of bytes that is
  -- inside the buffer, and inside what the caller has given, whose buffer holds `*lenp` bytes. It
  -- never tells that there are more elements.
  pub copy_JsArray-IsWithin :
      (given : Option (List ℕ × ℕ)) (w : W)
      → IsPlatform engine memory
      → HasRoom given
      → ((buf : List ℕ) × (len : ℕ) × ((copy_JsArray engine memory start given w).0
            ≡ copied buf len false)
          × IsWithin given buf len)
        ⊎ ((copy_JsArray engine memory start given w).0 ≡ failed)
  unfolding copy_JsArray
  copy_JsArray-IsWithin given w plat room = elim (Option-cases (engine.array_length w).0) [
    | inl h ↦ rw (copy_JsArray, h) (inr refl)
    | inr (n, h) ↦ elim (Bool-cases (n == 0)) [
      | inl g ↦ rw (copy_JsArray, h, g) (empty-IsCopied given)
      | inr g ↦
          rw (copy_JsArray, h, g)
            (copy_sized-IsCopied given n (engine.array_length w).1 plat (plat.length_fits w n h)
              room)
    ]
  ]
