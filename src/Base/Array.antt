-- ===== src/Base/Array.antt =====
-- C arrays as lists, measured and indexed by native numbers.
use Prim.Native.Nat.{ℕ, zero, suc, ◌+◌, ◌-◌, ◌≤◌}
use mathlib.Core.Path.{◌≡◌, refl, ap}
use mathlib.Core.List.{List, [], ◌∷◌, ◌++◌}
use mathlib.Core.Option.{Option, none, some}
use native.Mathlib.Nat.{zero-add, suc-add}
use native.Mathlib.Omega.{arith}

module _ {ℓ} {A : Type ℓ} where
  abbrev pub length : List A → ℕ
  length [] = 0
  length (x ∷ xs) = suc (length xs)

  abbrev pub get_elem? : List A → ℕ → Option A
  get_elem? [] i = none
  get_elem? (x ∷ xs) zero = some x
  get_elem? (x ∷ xs) (suc i) = get_elem? xs i

  abbrev pub get_or : List A → ℕ → A → A
  get_or [] i d = d
  get_or (x ∷ xs) zero d = x
  get_or (x ∷ xs) (suc i) d = get_or xs i d

  -- A write out of bounds changes nothing.
  abbrev pub set : List A → ℕ → A → List A
  set [] i v = []
  set (x ∷ xs) zero v = v ∷ xs
  set (x ∷ xs) (suc i) v = x ∷ set xs i v

  abbrev pub take : ℕ → List A → List A
  take zero xs = []
  take (suc n) [] = []
  take (suc n) (x ∷ xs) = x ∷ take n xs

  abbrev pub drop : ℕ → List A → List A
  drop zero xs = xs
  drop (suc n) [] = []
  drop (suc n) (x ∷ xs) = drop n xs

  abbrev pub replicate : ℕ → A → List A
  replicate zero a = []
  replicate (suc n) a = a ∷ replicate n a

  pub length-append : (xs ys : List A) → length (xs ++ ys) ≡ length xs + length ys
  length-append [] ys = omega arith
  length-append (x ∷ xs) ys = omega (arith, length-append xs ys)

  pub length-set : (xs : List A) (i : ℕ) (v : A) → length (set xs i v) ≡ length xs
  length-set [] i v = refl
  length-set (x ∷ xs) zero v = refl
  length-set (x ∷ xs) (suc i) v = ap suc (length-set xs i v)

  pub length-replicate : (n : ℕ) (a : A) → length (replicate n a) ≡ n
  length-replicate zero a = refl
  length-replicate (suc n) a = ap suc (length-replicate n a)

  pub take-append : (xs ys : List A) (k : ℕ) → take (length xs + k) (xs ++ ys) ≡ xs ++ take k ys
  take-append [] ys k = rw zero-add
  take-append (x ∷ xs) ys k = rw suc-add (rw (take-append xs ys k))

  pub drop-append : (xs ys : List A) (k : ℕ) → drop (length xs + k) (xs ++ ys) ≡ drop k ys
  drop-append [] ys k = rw zero-add
  drop-append (x ∷ xs) ys k = rw suc-add (drop-append xs ys k)

  pub length-drop : (n : ℕ) (xs : List A) → length (drop n xs) ≡ length xs - n
  length-drop zero xs = omega arith
  length-drop (suc n) [] = omega arith
  length-drop (suc n) (x ∷ xs) = omega (arith, length-drop n xs)

  pub drop-drop : (m n : ℕ) (xs : List A) → drop m (drop n xs) ≡ drop (n + m) xs
  drop-drop m zero xs = rw zero-add
  drop-drop zero (suc n) [] = rw suc-add
  drop-drop (suc m) (suc n) [] = rw suc-add
  drop-drop m (suc n) (x ∷ xs) = rw suc-add (drop-drop m n xs)

  pub take_all : (s : List A) → take (length s) s ≡ s
  take_all [] = refl
  take_all (c ∷ s) = ap (λ (t : List A). c ∷ t) (take_all s)

  pub append-take : (n : ℕ) (s : List A) → take n s ++ drop n s ≡ s
  append-take zero s = refl
  append-take (suc n) [] = refl
  append-take (suc n) (c ∷ s) = ap (λ (t : List A). c ∷ t) (append-take n s)

  pub nil_of_length : (s : List A) → length s ≡ 0 → s ≡ []
  nil_of_length [] e = refl
  nil_of_length (c ∷ s) e = absurd (omega (arith, e))

  pub take_past : (n : ℕ) (s : List A) → length s ≤ n → take n s ≡ s
  take_past zero [] le = refl
  take_past (suc n) [] le = refl
  take_past zero (c ∷ s) le = absurd (omega (arith, le))
  take_past (suc n) (c ∷ s) le = ap (λ (t : List A). c ∷ t) (take_past n s (omega (arith, le)))

  pub drop_past : (n : ℕ) (s : List A) → length s ≤ n → drop n s ≡ []
  drop_past zero [] le = refl
  drop_past zero (c ∷ s) le = absurd (omega (arith, le))
  drop_past (suc n) [] le = refl
  drop_past (suc n) (c ∷ s) le = drop_past n s (omega (arith, le))

  pub take_front : (n : ℕ) (s t : List A) → n ≤ length s → take n (s ++ t) ≡ take n s
  take_front zero s t le = refl
  take_front (suc n) [] t le = absurd (omega (arith, le))
  take_front (suc n) (c ∷ s) t le =
      ap (λ (u : List A). c ∷ u) (take_front n s t (omega (arith, le)))

  pub drop_front : (s t : List A) → drop (length s) (s ++ t) ≡ t
  drop_front [] t = refl
  drop_front (c ∷ s) t = drop_front s t

  pub length-take : (n : ℕ) (s : List A) → n ≤ length s → length (take n s) ≡ n
  length-take zero s le = refl
  length-take (suc n) [] le = absurd (omega (arith, le))
  length-take (suc n) (c ∷ s) le = ap suc (length-take n s (omega (arith, le)))
