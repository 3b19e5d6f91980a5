-- ===== src/Bytes/Search.antt =====
-- The searches of modules/binary/bytethings.c for a byte, forwards with memchr and backwards with
-- gpsee_memrchr.
use mathlib.Core.Option.{some-injective, none-ne-some}
use gpsee.Base.{
  length-take, ℕ, zero, suc, ◌≤◌, ◌<◌, ◌≡◌, inl, inr, refl, ap, ◌∙◌, false, List, [], ◌∷◌, ◌++◌,
  none, some, arith, ltb, leb, ◌==◌, if◌then◌else◌, Bool-cases, length, get_elem?, take,
}
use gpsee.Base64.{index_of}
use gpsee.Util.{last_index}
use gpsee.Bytes.{memchr, same_char, memrchr}

-- A place in a list.
pub at_place : (s : List ℕ) (i : ℕ) → i < length s → (x : ℕ) × (get_elem? s i ≡ some x)
at_place [] i lt = absurd (omega (arith, lt))
at_place (x ∷ s) zero lt = (x, refl)
at_place (x ∷ s) (suc i) lt = at_place s i (omega (arith, lt))

pub get_elem?-behind : (s : List ℕ) (i : ℕ) → length s ≤ i → get_elem? s i ≡ none
get_elem?-behind [] i le = refl
get_elem?-behind (x ∷ s) zero le = absurd (omega (arith, le))
get_elem?-behind (x ∷ s) (suc i) le = get_elem?-behind s i (omega (arith, le))

get_elem?-inside : (s : List ℕ) (i x : ℕ) → get_elem? s i ≡ some x → i < length s
get_elem?-inside [] i x e = absurd (none-ne-some _ e)
get_elem?-inside (y ∷ s) zero x e = omega arith
get_elem?-inside (y ∷ s) (suc i) x e = omega (arith, get_elem?-inside s i x e)

take-suc : (s : List ℕ) (n x : ℕ) → get_elem? s n ≡ some x → take (suc n) s ≡ take n s ++ x ∷ []
take-suc [] n x e = absurd (none-ne-some _ e)
take-suc (y ∷ s) zero x e = ap (λ z. z ∷ []) (some-injective _ _ e)
take-suc (y ∷ s) (suc n) x e = ap (λ t. y ∷ t) (take-suc s n x e)

last_index-snoc :
    (c : ℕ) (s : List ℕ) (x : ℕ)
    → last_index c (s ++ x ∷ []) ≡ (if x == c then some (length s) else last_index c s)
unfolding last_index
last_index-snoc c [] x = refl
last_index-snoc c (y ∷ s) x = elim (Bool-cases (x == c)) [
  | inl h ↦ ground (arith, last_index-snoc c s x, h)
  | inr h ↦ ground (arith, last_index-snoc c s x, h)
]

last_index-take-suc :
    (s : List ℕ) (c n x : ℕ)
    → get_elem? s n ≡ some x
    → last_index c (take (suc n) s) ≡ (if x == c then some n else last_index c (take n s))
last_index-take-suc s c n x e =
    let lt = get_elem?-inside s n x e in
    ap (last_index c) (take-suc s n x e)
    ∙ last_index-snoc c (take n s) x
    ∙ rw (length-take n s (omega (arith, lt))) refl

last_index-nil : (c : ℕ) → last_index c [] ≡ none
unfolding last_index
last_index-nil c = refl

same_char_ascii : (x c : ℕ) → c < 128 → same_char x c ≡ (x == c)
same_char_ascii x c lt = ground (arith, lt)

memrchr-last_index :
    (s : List ℕ) (c n : ℕ)
    → n < length s
    → c < 128
    → memrchr s c n ≡ some (last_index c (take (suc n) s))
unfolding memrchr
memrchr-last_index s c zero lt ascii =
    let (x, e) = at_place s 0 lt in
    rw (memrchr, e, same_char_ascii x c ascii, last_index-take-suc s c 0 x e, last_index-nil) refl
memrchr-last_index s c (suc n) lt ascii =
    let (x, e) = at_place s (suc n) lt in
    let ih = memrchr-last_index s c n (omega (arith, lt)) ascii in
    elim (Bool-cases (x == c)) [
      | inl h ↦
          rw (memrchr, e, same_char_ascii x c ascii, last_index-take-suc s c (suc n) x e, h) refl
      | inr h ↦
          rw (memrchr, e, same_char_ascii x c ascii, last_index-take-suc s c (suc n) x e, h) ih
    ]

memrchr-high : (s : List ℕ) (c n : ℕ) → n < length s → 128 ≤ c → memrchr s c n ≡ some none
unfolding memrchr
memrchr-high s c zero lt high =
    let (x, e) = at_place s 0 lt in
    let miss : same_char x c ≡ false = ground (arith, high) in rw (memrchr, e, miss) refl
memrchr-high s c (suc n) lt high =
    let (x, e) = at_place s (suc n) lt in
    let miss : same_char x c ≡ false = ground (arith, high) in
    rw (memrchr, e, miss) (memrchr-high s c n (omega (arith, lt)) high)

memrchr_past : (s : List ℕ) (c n : ℕ) → length s ≤ n → memrchr s c n ≡ none
unfolding memrchr
memrchr_past s c zero le = rw (memrchr, get_elem?-behind s 0 le) refl
memrchr_past s c (suc n) le = rw (memrchr, get_elem?-behind s (suc n) le) refl

-- gpsee_memrchr of n bytes looks at n + 1 of them: it reads behind a block of n bytes or less; in a
-- longer one it gives the last place of a byte below 128 among the first n + 1, and a byte from 128
-- on it never finds.
pub memrchr_lem :
    (s : List ℕ) (c n : ℕ)
    → memrchr s c n ≡ (
        if leb (length s) n
        then none
        else some (if ltb c 128 then last_index c (take (suc n) s) else none))
memrchr_lem s c n = elim (Bool-cases (leb (length s) n)) [
  | inl h ↦ rw h (memrchr_past s c n (ground (arith, h)))
  | inr h ↦ elim (Bool-cases (ltb c 128)) [
    | inl g ↦ rw (h, g) (memrchr-last_index s c n (ground (arith, h)) (ground (arith, g)))
    | inr g ↦ rw (h, g) (memrchr-high s c n (ground (arith, h)) (ground (arith, g)))
  ]
]

-- `memchr` is a search in the first n bytes.
pub memchr-index_of :
    (s : List ℕ) (c n : ℕ) → n ≤ length s → memchr s c n ≡ some (index_of (take n s) c)
unfolding memchr index_of
memchr-index_of s c zero le = refl
memchr-index_of [] c (suc n) le = absurd (omega (arith, le))
memchr-index_of (x ∷ s) c (suc n) le = elim (Bool-cases (x == c)) [
  | inl h ↦ rw (memchr, h, index_of) refl
  | inr h ↦ rw (memchr, h, index_of, memchr-index_of s c n (omega (arith, le))) refl
]
