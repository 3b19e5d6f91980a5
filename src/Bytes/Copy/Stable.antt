-- ===== src/Bytes/Copy/Stable.antt =====
-- `copyJSArray_toBuf` (modules/binary/bytethings.c) on an array of bytes that nothing changes.
use mathlib.Core.List.{append_assoc, append-nil}
use gpsee.Base.{
  ℕ, zero, suc, ◌+◌, ◌^◌, ◌<◌, ◌≡◌, ◌⊎◌, inl, inr, refl, sym, ap, ◌∙◌, Bool, true, false, List, min,
  [], ◌∷◌, ◌++◌, Option, none, some, arith, ltb, ◌==◌, if◌then◌else◌, length, get_elem?,
  length-append,
}
use gpsee.Util.Copy.{poke_behind}
use gpsee.Bytes.{whole, number2byte}
use gpsee.Bytes.Copy.{
  Engine, Memory, u32, Copying, Copied, copied, next, resize, store, turn, copy_loop, rounds, empty,
  copy_sized, copy_JsArray,
}

-- The array holds the bytes, and reading it changes nothing.
pub record IsStable {W : Type 0} (engine : Engine W) (bytes : List ℕ) : Type 0 where
  pub same_length : (w : W) → engine.array_length w ≡ (some (length bytes), w)
  pub same_element :
      (w : W) (k x : ℕ)
      → get_elem? bytes k ≡ some x
      → engine.element k w ≡ (some (whole false x), w)
  pub is_byte : (k x : ℕ) → get_elem? bytes k ≡ some x → x < 256

get_elem?-append : (s t : List ℕ) (x : ℕ) → get_elem? (s ++ x ∷ t) (length s) ≡ some x
get_elem?-append [] t x = refl
get_elem?-append (y ∷ s) t x = get_elem?-append s t x

-- The loop with the buffer, its size and the bounds of a whole array of n elements.
abbrev whole_array : List ℕ → ℕ → ℕ → Copying
whole_array buf size n = record { buf = buf; buf_len = size; arr_len = n; stop = n }

-- The buffer has the size of the array, or is the caller's and has room for it.
abbrev HasRoomFor : Bool → ℕ → ℕ → Type 0
HasRoomFor own size n = (size ≡ n) ⊎ ((own ≡ false) × (n < size))

module _ {W : Type 0} (engine : Engine W) (memory : Memory) (own : Bool) where
  resize-whole_array :
      (buf : List ℕ) (size n : ℕ)
      → HasRoomFor own size n
      → resize engine memory own (whole_array buf size n) (some n) ≡ next (whole_array buf size n)
  unfolding resize
  resize-whole_array buf size n (inl e) =
      let same : (n == size) ≡ true = ground arith in rw (resize, same) refl
  resize-whole_array buf size n (inr (e, lt)) =
      let apart : (n == size) ≡ false = ground arith in
      let least : min size n ≡ n = omega (arith, lt) in rw (resize, apart, e, least) refl

  module _ (bytes tail : List ℕ) (size : ℕ) (room : HasRoomFor own size (length bytes)) where
    turn-stable :
        (w : W) (before rest : List ℕ) (x y : ℕ)
        → IsStable engine bytes
        → get_elem? bytes (length before) ≡ some x
        → turn engine memory own 0
            (length before)
            (whole_array (before ++ y ∷ rest) size (length bytes))
            w
          ≡ (next (whole_array (before ++ x ∷ rest) size (length bytes)), w)
    unfolding turn store number2byte
    turn-stable w before rest x y stable e =
        let zeroth : 0 + length before ≡ length before = omega arith in
        let read = stable.same_element w (length before) x e in
        let byte : ltb x 256 ≡ true = ground (arith, stable.is_byte (length before) x e) in
        rw
          (
            turn,
            zeroth,
            read,
            byte,
            store,
            poke_behind before rest y x,
            zeroth,
            read,
            stable.same_length w,
            resize-whole_array (before ++ x ∷ rest) size (length bytes) room,
          )
          refl

    copy_loop-stable :
        (fuel : ℕ) (w : W) (before todo rest : List ℕ)
        → IsStable engine bytes
        → bytes ≡ before ++ todo
        → length rest ≡ length todo
        → length todo < fuel
        → copy_loop engine memory own fuel 0
            (length before)
            (whole_array (before ++ (rest ++ tail)) size (length bytes))
            w
          ≡ (copied (bytes ++ tail) (length bytes) false, w)
    unfolding copy_loop
    copy_loop-stable zero w before todo rest stable e same lt = absurd (omega (arith, lt))
    copy_loop-stable (suc fuel) w before [] [] stable e same lt =
        let at_end : ltb (length before) (length bytes) ≡ false =
          ground (arith, ap length e, length-append before []) in
        let equal : ltb (length bytes) (length bytes) ≡ false = ground arith in
        let all : bytes ≡ before = e ∙ append-nil before in
        rw (copy_loop, at_end, equal, ← all) refl
    copy_loop-stable (suc fuel) w before [] (y ∷ rest) stable e same lt =
        absurd (omega (arith, same))
    copy_loop-stable (suc fuel) w before (x ∷ todo) [] stable e same lt =
        absurd (omega (arith, same))
    copy_loop-stable (suc fuel) w before (x ∷ todo) (y ∷ rest) stable e same lt =
        let more : ltb (length before) (length bytes) ≡ true =
          ground (arith, ap length e, length-append before (x ∷ todo)) in
        let here = ap (λ s. get_elem? s (length before)) e ∙ get_elem?-append before todo x in
        let moved = turn-stable w before (rest ++ tail) x y stable here in
        let ih =
          copy_loop-stable fuel w (before ++ x ∷ []) todo rest stable
            (e ∙ sym (append_assoc before (x ∷ []) todo)) (omega (arith, same))
            (omega (arith, lt)) in
        let at : length (before ++ x ∷ []) ≡ length before + 1 =
          omega (arith, length-append before (x ∷ [])) in
        rw (copy_loop, more, moved, moved)
          (rw (append_assoc before (x ∷ []) (rest ++ tail), at) at ih)

module _ {W : Type 0} (engine : Engine W) (memory : Memory) (w : W) where
  copy_JsArray-copy_sized :
      (given : Option (List ℕ × ℕ)) (n : ℕ)
      → engine.array_length w ≡ (some n, w)
      → copy_JsArray engine memory 0 given w ≡ (
          if n == 0 then (empty engine memory 0 given, w) else copy_sized engine memory 0 given n w)
  unfolding copy_JsArray
  copy_JsArray-copy_sized given n e = rw (copy_JsArray, e, e) refl

  copy_sized-own :
      (n : ℕ) (block : List ℕ)
      → memory.malloc n ≡ some block
      → copy_sized engine memory 0 none n w
        ≡ copy_loop engine memory true rounds 0 0 (whole_array block n n) w
  unfolding copy_sized
  copy_sized-own n block got = rw (copy_sized, got) refl

  copy_sized-given :
      (n size : ℕ) (buf : List ℕ)
      → u32 size ≡ size
      → min size n ≡ n
      → copy_sized engine memory 0 (some (buf, size)) n w
        ≡ copy_loop engine memory false rounds 0 0 (whole_array buf size n) w
  unfolding copy_sized
  copy_sized-given n size buf e least =
      ap (λ k. looped k (min k n)) e ∙ ap (λ k. looped size k) least
    where
      looped : ℕ → ℕ → Copied × W
      looped k m =
          copy_loop engine memory false rounds 0 0
            (record { buf = buf; buf_len = k; arr_len = n; stop = m }) w

-- Of an array of bytes that nothing changes, from its first element on, copyJSArray_toBuf gives a
-- buffer of its own with exactly these bytes, if the allocator gives one of that length.
copy_JsArray-stable :
    {W : Type 0} (engine : Engine W) (memory : Memory) (bytes block : List ℕ) (w : W)
    → IsStable engine bytes
    → length bytes < 2 ^ 32
    → memory.malloc (length bytes) ≡ some block
    → length block ≡ length bytes
    → copy_JsArray engine memory 0 none w ≡ (copied bytes (length bytes) false, w)
copy_JsArray-stable engine memory [] block w stable fits got same =
    copy_JsArray-copy_sized engine memory w none 0 (stable.same_length w)
copy_JsArray-stable engine memory (x ∷ bytes) block w stable fits got same =
    let some_left : (length (x ∷ bytes) == 0) ≡ false = ground arith in
    let ends =
      copy_loop-stable engine memory true (x ∷ bytes) [] (length (x ∷ bytes)) (inl refl) rounds w []
        (x ∷ bytes) block stable refl same (omega (arith, fits)) in
    copy_JsArray-copy_sized engine memory w none (length (x ∷ bytes)) (stable.same_length w)
    ∙ rw some_left (copy_sized-own engine memory w (length (x ∷ bytes)) block got)
    ∙ rw (append-nil block, append-nil (x ∷ bytes)) at ends

-- Into a buffer of the caller's that has room for them, it puts exactly these bytes at the start.
pub copy_JsArray-into :
    {W : Type 0} (engine : Engine W) (memory : Memory) (bytes block tail : List ℕ) (w : W)
    → IsStable engine bytes
    → length block ≡ length bytes
    → length bytes + length tail < 2 ^ 32
    → copy_JsArray engine memory 0 (some (block ++ tail, length bytes + length tail)) w
      ≡ (copied (bytes ++ tail) (length bytes) false, w)
copy_JsArray-into engine memory [] [] tail w stable same fits =
    copy_JsArray-copy_sized engine memory w _ 0 (stable.same_length w)
copy_JsArray-into engine memory [] (y ∷ block) tail w stable same fits =
    absurd (omega (arith, same))
copy_JsArray-into engine memory (x ∷ bytes) block tail w stable same fits =
    let n : ℕ = length (x ∷ bytes) in
    let some_left : (n == 0) ≡ false = ground arith in
    copy_JsArray-copy_sized engine memory w _ n (stable.same_length w)
    ∙ rw some_left (
        copy_sized-given engine memory w n (n + length tail) (block ++ tail) (omega (arith, fits))
          (omega arith))
    ∙ copy_loop-stable engine memory false (x ∷ bytes) tail (n + length tail) (room (length tail))
        rounds w [] (x ∷ bytes) block stable refl same (omega (arith, fits))
  where
    room : (k : ℕ) → HasRoomFor false (length (x ∷ bytes) + k) (length (x ∷ bytes))
    room zero = inl (omega arith)
    room (suc k) = inr (refl, omega arith)
