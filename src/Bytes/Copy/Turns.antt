-- ===== src/Bytes/Copy/Turns.antt =====
-- One turn of the loop of `copyJSArray_toBuf` (modules/binary/bytethings.c): it stays in the buffer.
use gpsee.Base.{
  ℕ, ◌^◌, ◌≤◌, ◌<◌, ◌≡◌, inl, inr, refl, ◌∙◌, Bool, false, List, Option, none, some, arith, ◌==◌,
  Bool-cases, Option-cases, length, set, length-set,
}
use gpsee.Util.Copy.{poke_inside}
use gpsee.Bytes.{Result, ok, thrown}
use gpsee.Bytes.Copy.{Engine, Memory, Copying, failed, overrun, Turn, next, resize, store, turn}

-- The lengths of arrays are those of a `jsuint`, and a block has the length that was asked for.
pub record IsPlatform {W : Type 0} (engine : Engine W) (memory : Memory) : Type 0 where
  pub length_fits : (w : W) (n : ℕ) → (engine.array_length w).0 ≡ some n → n < 2 ^ 32
  pub length-malloc : (n : ℕ) (b : List ℕ) → memory.malloc n ≡ some b → length b ≡ n
  pub length-realloc : (n : ℕ) (b b' : List ℕ) → memory.realloc b n ≡ some b' → length b' ≡ n

-- The loop stays in the buffer and in the array; `size` is the length of the caller's buffer
-- and `most` its `*lenp`.
pub record IsSound (own : Bool) (size most : ℕ) (c : Copying) : Type 0 where
  pub stop_fits : c.stop < 2 ^ 32
  pub in_array : c.stop ≤ c.arr_len
  pub in_buffer : c.stop ≤ length c.buf
  pub in_len : c.stop ≤ c.buf_len
  pub len_inside : own ≡ false → c.buf_len ≤ most
  pub len_fits : own ≡ false → c.buf_len ≤ size
  pub len_same : own ≡ false → length c.buf ≡ size

-- A turn goes on soundly or fails, but does not write past the buffer.
abbrev pub IsSafe : Bool → ℕ → ℕ → Turn → Type 0
IsSafe own size most (next c) = IsSound own size most c
IsSafe own size most failed = Unit
IsSafe own size most overrun = ⊥

module _ {W : Type 0} (engine : Engine W) (memory : Memory) (own : Bool) (size most : ℕ) where
  resize-IsSafe :
      (c : Copying) (o : Option ℕ)
      → IsPlatform engine memory
      → ((n : ℕ) → o ≡ some n → n < 2 ^ 32)
      → IsSound own size most c
      → IsSafe own size most (resize engine memory own c o)
  unfolding resize
  resize-IsSafe c none plat fits sound = tt
  resize-IsSafe c (some n) plat fits sound = elim (Bool-cases (n == c.buf_len)) [
    | inl h ↦
        rw (resize, h)
          (record {
            stop_fits = sound.stop_fits;
            in_array = ground (arith, h, sound.in_len);
            in_buffer = sound.in_buffer;
            in_len = sound.in_len;
            len_inside = sound.len_inside;
            len_fits = sound.len_fits;
            len_same = sound.len_same;
          })
    | inr h ↦ elim (Bool-cases own) [
      | inl g ↦ elim (Option-cases (memory.realloc c.buf n)) [
        | inl f ↦ rw (resize, h, g, f) tt
        | inr (b, f) ↦
            let len = plat.length-realloc n c.buf b f in
            rw (resize, h, g, f)
              (record {
                stop_fits = fits n refl;
                in_array = omega arith;
                in_buffer = omega (arith, len);
                in_len = omega arith;
                len_inside = λ e. cc;
                len_fits = λ e. cc;
                len_same = λ e. cc;
              })
      ]
      | inr g ↦
          rw (resize, h, g)
            (record {
              stop_fits = omega (arith, fits n refl);
              in_array = omega arith;
              in_buffer = omega (arith, sound.len_fits g, sound.len_same g);
              in_len = omega arith;
              len_inside = λ e. sound.len_inside g;
              len_fits = λ e. sound.len_fits g;
              len_same = λ e. sound.len_same g;
            })
    ]
  ]

  store-IsSafe :
      (i : ℕ) (c : Copying) (w : W) (r : Result ℕ)
      → IsPlatform engine memory
      → i < c.stop
      → IsSound own size most c
      → IsSafe own size most (store engine memory own i c w r).0
  unfolding store
  store-IsSafe i c w (thrown e) plat lt sound = tt
  store-IsSafe i c w (ok byte) plat lt sound =
      rw (store, poke_inside i byte c.buf (omega (arith, lt, sound.in_buffer)))
        (resize-IsSafe (record c { buf = set c.buf i byte }) (engine.array_length w).0 plat
          (plat.length_fits w)
          (record {
            stop_fits = sound.stop_fits;
            in_array = sound.in_array;
            in_buffer = omega (arith, length-set c.buf i byte, sound.in_buffer);
            in_len = sound.in_len;
            len_inside = sound.len_inside;
            len_fits = sound.len_fits;
            len_same = λ e. length-set c.buf i byte ∙ sound.len_same e;
          }))

  pub turn-IsSafe :
      (start i : ℕ) (c : Copying) (w : W)
      → IsPlatform engine memory
      → i < c.stop
      → IsSound own size most c
      → IsSafe own size most (turn engine memory own start i c w).0
  unfolding turn
  turn-IsSafe start i c w plat lt sound = store-IsSafe i c _ _ plat lt sound
