-- ===== src/Php/Search.antt =====
-- What the searches of modules/cgi/phpsess.c for a byte find.
use mathlib.Core.Option.{some-injective, none-ne-some}
use gpsee.Base.{
  ℕ, zero, suc, ◌<◌, ◌≡◌, ◌≢◌, refl, sym, ◌∙◌, ◌⊎◌, List, [], ◌∷◌, ◌++◌, Option, none, some, arith,
  ◌==◌, inl, inr, Bool-cases, length, get_elem?,
}
use gpsee.Util.Path.{Lacks, nil, cons}
use gpsee.Php.Strings.{behind, strchr}

pub strchr-append :
    (c : ℕ) (s t : List ℕ) → Lacks c s → Lacks 0 s → strchr c (s ++ c ∷ t) ≡ some (some (length s))
unfolding strchr
strchr-append c [] t nil nil = ground arith
strchr-append c (x ∷ s) t (cons ne l) (cons nz z) = ground (arith, strchr-append c s t l z, ne, nz)

-- The offset that is found is inside, at a byte of the kind and at no one before.
pub record IsFirst (c : ℕ) (s : List ℕ) (k : ℕ) : Type 0 where
  pub inside : k < length s
  pub there : get_elem? s k ≡ some c
  pub before : (i : ℕ) → i < k → get_elem? s i ≢ some c

first_behind :
    (c x k : ℕ) (s : List ℕ)
    → x ≢ c
    → IsFirst c s k
    → (i : ℕ) → i < suc k
    → get_elem? (x ∷ s) i ≢ some c
first_behind c x k s ne f zero lt e = ne (some-injective _ _ e)
first_behind c x k s ne f (suc i) lt e = f.before i (omega (arith, lt)) e

IsFirst-behind : (c x k : ℕ) (s : List ℕ) → x ≢ c → IsFirst c s k → IsFirst c (x ∷ s) (suc k)
IsFirst-behind c x k s ne f = record {
  inside = omega (arith, f.inside);
  there = f.there;
  before = first_behind c x k s ne f;
}

IsFirst-here : (c : ℕ) (s : List ℕ) → IsFirst c (c ∷ s) 0
IsFirst-here c s = record {
  inside = omega arith;
  there = refl;
  before = λ i lt e. absurd (omega (arith, lt));
}

strchr-cons :
    (c x : ℕ) (s : List ℕ)
    → ((x ≡ c) × (strchr c (x ∷ s) ≡ some (some 0)))
      ⊎ ((x ≢ c) × (strchr c (x ∷ s) ≡ some none))
      ⊎ ((x ≢ c) × (strchr c (x ∷ s) ≡ behind (strchr c s)))
unfolding strchr
strchr-cons c x s = elim (Bool-cases (x == c)) [
  | inl h ↦ inl (ground (arith, h), rw (h, strchr))
  | inr h ↦ elim (Bool-cases (x == 0)) [
    | inl z ↦ inr (inl (ground (arith, h), rw (h, strchr, z)))
    | inr z ↦ inr (inr (ground (arith, h), rw (h, strchr, z)))
  ]
]

behind_found :
    (o : Option (Option ℕ)) (k : ℕ)
    → behind o ≡ some (some k)
    → (j : ℕ) × (o ≡ some (some j)) × (k ≡ suc j)
behind_found none k e = absurd (none-ne-some _ e)
behind_found (some none) k e = absurd (none-ne-some _ (some-injective _ _ e))
behind_found (some (some j)) k e = (j, refl, sym (some-injective _ _ (some-injective _ _ e)))

-- What a search gives is the first place of the byte.
pub strchr-IsFirst : (c : ℕ) (s : List ℕ) (k : ℕ) → strchr c s ≡ some (some k) → IsFirst c s k
unfolding strchr
strchr-IsFirst c [] k e = absurd (none-ne-some _ e)
strchr-IsFirst c (x ∷ s) k e = elim (strchr-cons c x s) [
  | inl (h, g) ↦
      let at_start : 0 ≡ k = some-injective _ _ (some-injective _ _ (sym g ∙ e)) in
      rw (← at_start, h) (IsFirst-here c s)
  | inr (inl (h, g)) ↦ absurd (none-ne-some _ (some-injective _ _ (sym g ∙ e)))
  | inr (inr (h, g)) ↦
      let (j, found, next) = behind_found (strchr c s) k (sym g ∙ e) in
      rw next (IsFirst-behind c x j s h (strchr-IsFirst c s j found))
]
