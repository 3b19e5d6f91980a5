-- ===== src/Bytes/Arguments.antt =====
-- What byteThing_arg2size of modules/binary/bytethings.c lets through.
use gpsee.Base.{
  ℕ, ◌-◌, ◌^◌, ◌≤◌, ◌≡◌, ◌⊎◌, not, ◌&&◌, ◌==◌, true, false, zero, suc, inl, inr, refl, Bool, ◌||◌,
  Option, none, some, arith, ltb, leb, if◌then◌else◌, Bool-cases,
}
use gpsee.Bytes.{
  Double, whole, fraction, underflow, overflow, invalid_value, Thrown, Result, ok, thrown,
  val2ssize, check_size, arg2size,
}

-- The integer from 0 to `most` that an argument is, or the default if it is left out; no such integer
-- is above a `ssize_t`.
unfoldable pub asked : ℕ → Option ℕ → Option (Option Double) → Option ℕ
asked most preset none = preset
asked most preset (some none) = none
asked most preset (some (some (fraction sign))) = none
asked most preset (some (some (whole sign n))) =
    if (n == 0) || (not sign && leb n most && ltb n (2 ^ 63)) then some n else none

-- It throws where there is no such integer, and else gives the integer.
abbrev pub IsAsked : ℕ → Option (Option Double) → Option ℕ → Result ℕ → Type 0
IsAsked most argument preset r =
    ((e : Thrown) × (r ≡ thrown e) × (asked most preset argument ≡ none))
    ⊎ ((n : ℕ) × (r ≡ ok n) × (asked most preset argument ≡ some n) × (n ≤ most))

conversion-IsAsked :
    (most : ℕ) (sign : Bool) (n : ℕ) (preset : Option ℕ)
    → IsAsked most
        (some (some (whole sign n)))
        preset
        (check_size 0 most (val2ssize (some (whole sign n))))
unfolding val2ssize check_size asked
conversion-IsAsked most true zero preset =
    let low : ltb most 0 ≡ false = ground arith in
    rw (val2ssize, check_size, low) (inr (0, refl, refl, omega arith))
conversion-IsAsked most false zero preset =
    let low : ltb most 0 ≡ false = ground arith in
    rw (val2ssize, check_size, low) (inr (0, refl, refl, omega arith))
conversion-IsAsked most true (suc n) preset = elim (Bool-cases (leb (suc n) (2 ^ 63))) [
  | inl h ↦ inl (underflow, ground (arith, h), ground arith)
  | inr h ↦ inl (invalid_value, ground (arith, h), ground arith)
]
conversion-IsAsked most false (suc n) preset = elim (Bool-cases (leb (suc n) (2 ^ 63 - 1))) [
  | inl h ↦ elim (Bool-cases (ltb most (suc n))) [
    | inl f ↦ inl (overflow, ground (arith, h, f), ground (arith, f))
    | inr f ↦ inr (suc n, ground (arith, h, f), ground (arith, h, f), ground (arith, f))
  ]
  | inr h ↦ inl (invalid_value, ground (arith, h), ground (arith, h))
]

pub arg2size-IsAsked :
    (argument : Option (Option Double)) (most : ℕ) (preset : Option ℕ)
    → ((m : ℕ) → preset ≡ some m → m ≤ most)
    → IsAsked most argument preset (arg2size argument 0 most preset)
unfolding arg2size val2ssize check_size asked
arg2size-IsAsked none most none fits = inl (_, refl, refl)
arg2size-IsAsked none most (some n) fits = inr (n, refl, refl, fits n refl)
arg2size-IsAsked (some none) most preset fits = inl (_, refl, refl)
arg2size-IsAsked (some (some (fraction sign))) most preset fits = inl (_, refl, refl)
arg2size-IsAsked (some (some (whole sign n))) most preset fits =
    conversion-IsAsked most sign n preset
