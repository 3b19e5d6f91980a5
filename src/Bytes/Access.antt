-- ===== src/Bytes/Access.antt =====
-- The bounds of what scripts read of a ByteString or a ByteArray (modules/binary/bytethings.c).
use mathlib.Core.Option.{some-injective}
use gpsee.Base.{
  ℕ, ◌+◌, ◌-◌, ◌≤◌, ◌<◌, ◌≡◌, ◌⊎◌, inl, inr, refl, Bool, Option, none, some, arith, ltb, leb, ◌==◌,
  ◌||◌, if◌then◌else◌, Bool-cases, Option-cases, length, get_elem?, drop, take, length-drop,
}
use gpsee.Base64.{index_of}
use gpsee.Util.{◌>>=◌, size_mod, size_sub}
use gpsee.Bytes.Arguments.{asked, arg2size-IsAsked}
use gpsee.Bytes.Needle.{needle_of, NotNull, val2byte-needle_of}
use gpsee.Bytes.Search.{at_place, memchr-index_of}
use gpsee.Bytes.{
  Double, arg2size, Thrown, Result, ok, thrown, wrong_count, val2size, Handle, Answer, number,
  minus_one, undefined, give, property_at, get_property, memchr, FindArguments, find_in, find_from,
  find_byte, find_char,
}

-- The handle's length is not more than its block has, and it fits a `size_t`.
pub record IsHandle (hnd : Handle) : Type 0 where
  pub inside : hnd.length ≤ length hnd.buffer
  pub fits : hnd.length < size_mod

Result-cases : (r : Result ℕ) → ((e : Thrown) × (r ≡ thrown e)) ⊎ ((n : ℕ) × (r ≡ ok n))
Result-cases (thrown e) = inl (e, refl)
Result-cases (ok n) = inr (n, refl)

size_sub_le : (a b : ℕ) → b ≤ a → a < size_mod → size_sub a b ≡ a - b
unfolding size_sub
size_sub_le a b le lt = omega arith

-- An index in brackets leaves the property alone if it is no `size_t`, is undefined from the length
-- on, and else gives the byte there; an empty object has no byte to give.
pub get_property_cases :
    (hnd : Handle) (as_string : Bool) (key : Option Double)
    → IsHandle hnd
    → ((e : Thrown) × (val2size key ≡ thrown e) × (get_property hnd as_string key ≡ some none))
      ⊎ ((index : ℕ) × (val2size key ≡ ok index)
          × (hnd.length ≤ index)
          × (get_property hnd as_string key ≡ some (some undefined)))
      ⊎ ((index : ℕ) × (byte : ℕ) × (val2size key ≡ ok index)
          × (get_elem? hnd.buffer index ≡ some byte)
          × (get_property hnd as_string key ≡ some (some (give as_string byte))))
unfolding property_at
get_property_cases hnd as_string key h = elim (Result-cases (val2size key)) [
  | inl (e, f) ↦ inl (e, f, rw (f, property_at) refl)
  | inr (index, f) ↦ elim (Bool-cases (leb hnd.length index)) [
    | inl g ↦ inr (inl (index, f, ground (arith, g), rw (f, property_at, g) refl))
    | inr g ↦
        let (byte, there) = at_place hnd.buffer index (ground (arith, g, h.inside)) in
        inr (inr (index, byte, f, there, rw (f, property_at, g, there) refl))
  ]
]

-- What indexOf answers for a search in the bytes from `start` on.
abbrev pub answer : ℕ → Option ℕ → Answer
answer start none = minus_one
answer start (some k) = number (start + k)

-- What indexOf is to answer: the place of the first such byte among the `len` bytes from `start` on.
unfoldable pub found : Handle → FindArguments → Option Answer
found hnd args =
    if (args.count == 0) || ltb 3 args.count
    then none
    else (needle_of args.kind args.needle >>= λ byte.
        (asked (hnd.length - 1) (some 0) args.start >>= λ start.
        (asked (hnd.length - start) (some (hnd.length - start)) args.len >>= λ len.
        some (answer start (index_of (take len (drop start hnd.buffer)) byte)))))

-- An exception where there is nothing to answer, and else the answer.
abbrev Agrees : Option (Result Answer) → Option Answer → Type 0
Agrees r o =
    ((e : Thrown) × (r ≡ some (thrown e)) × (o ≡ none))
    ⊎ ((a : Answer) × (r ≡ some (ok a)) × (o ≡ some a))

module _ (hnd : Handle) (byte : ℕ) (h : IsHandle hnd) where
  stretch : ℕ → ℕ → Option Answer
  stretch start len = some (answer start (index_of (take len (drop start hnd.buffer)) byte))

  find_in-stretch :
      (start len : ℕ)
      → start + len ≤ hnd.length
      → find_in memchr hnd byte start (ok len)
        ≡ some (ok (answer start (index_of (take len (drop start hnd.buffer)) byte)))
  unfolding find_in
  find_in-stretch start len le =
      let room : len ≤ length (drop start hnd.buffer) =
        omega (arith, length-drop start hnd.buffer, le, h.inside) in
      let searched = memchr-index_of (drop start hnd.buffer) byte len room in
      elim (Option-cases (index_of (take len (drop start hnd.buffer)) byte)) [
        | inl e ↦ rw (find_in, searched, e) refl
        | inr (k, e) ↦ rw (find_in, searched, e) refl
      ]

  find_in-Agrees :
      (start left : ℕ) (len : Option (Option Double))
      → start + left ≤ hnd.length
      → Agrees
          (find_in memchr hnd byte start (arg2size len 0 left (some left)))
          (asked left (some left) len >>= λ n. stretch start n)
  unfolding find_in stretch
  find_in-Agrees start left len le =
      elim (arg2size-IsAsked len left (some left) (λ m e. omega (arith, some-injective _ _ e))) [
        | inl (e, f, g) ↦ inl (e, rw (f, find_in) refl, rw (g) refl)
        | inr (n, f, g, below) ↦ inr (
          answer start (index_of (take n (drop start hnd.buffer)) byte),
          rw (f) (find_in-stretch start n (omega (arith, le, below))),
          rw (g) refl,
        )
      ]

  find_from-Agrees :
      (start len : Option (Option Double))
      → 0 < hnd.length
      → Agrees (find_from memchr hnd byte len (arg2size start 0 (size_sub hnd.length 1) (some 0))) (
          asked (hnd.length - 1) (some 0) start >>= λ m.
          (asked (hnd.length - m) (some (hnd.length - m)) len >>= λ n. stretch m n))
  unfolding find_from
  find_from-Agrees start len pos =
      let same = size_sub_le hnd.length 1 (omega (arith, pos)) h.fits in
      elim (arg2size-IsAsked start (hnd.length - 1) (some 0)
        (λ m e. omega (arith, some-injective _ _ e))) [
          | inl (e, f, g) ↦ inl (e, rw (same, f, find_from) refl, rw (g) refl)
          | inr (m, f, g, below) ↦
              let left = size_sub_le hnd.length m (omega (arith, pos, below)) h.fits in
              rw (same, f, find_from, left, g)
                (find_in-Agrees m (hnd.length - m) len (omega (arith, pos, below)))
        ]

-- indexOf of an object that is not empty and whose block holds its length, for a needle that is not
-- null, gives the place of the first such byte in the stretch that the second and the third argument
-- ask for, or -1, and throws where the arguments ask for no stretch inside the object or for no byte,
-- or are not one to three.
pub find_char-index_of :
    (hnd : Handle) (args : FindArguments)
    → IsHandle hnd
    → 0 < hnd.length
    → NotNull args.kind
    → ((e : Thrown) × (find_char memchr hnd args ≡ some (thrown e)) × (found hnd args ≡ none))
      ⊎ ((a : Answer) × (find_char memchr hnd args ≡ some (ok a)) × (found hnd args ≡ some a))
unfolding find_char find_byte found stretch
find_char-index_of hnd args h pos is = elim (Bool-cases ((args.count == 0) || ltb 3 args.count)) [
  | inl g ↦ inl (wrong_count, rw (find_char, g) refl, rw (found, g) refl)
  | inr g ↦ elim (val2byte-needle_of args.kind args.needle is) [
    | inl (e, f, d) ↦ inl (e, rw (find_char, g, f, find_byte) refl, rw (found, g, d) refl)
    | inr (byte, f, d) ↦
        rw (find_char, g, f, find_byte, found, d)
          (find_from-Agrees hnd byte h args.start args.len pos)
  ]
]
