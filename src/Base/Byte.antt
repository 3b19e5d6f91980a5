-- ===== src/Base/Byte.antt =====
-- Facts about bytes that are checked at each of the 256 values.
use Prim.Native.Nat.{ℕ, zero, suc, ◌+◌, ◌*◌, ◌/◌, ◌%◌, ◌<◌, bit_and, bit_or}
use mathlib.Core.Path.{◌≡◌, refl}
use mathlib.Core.Bool.{Bool, true, ◌&&◌}
use native.Mathlib.Omega.{arith}
use gpsee.Base.Test.{◌==◌, ==_iff}

-- The test passes at every number below the bound.
unfoldable pub holds_below : ℕ → (ℕ → Bool) → Bool
holds_below zero test = true
holds_below (suc n) test = test n && holds_below n test

pub holds_below-at :
    (n : ℕ) (test : ℕ → Bool) (x : ℕ) → holds_below n test ≡ true → x < n → test x ≡ true
unfolding holds_below
holds_below-at zero test x all lt = absurd (omega arith)
holds_below-at (suc n) test x all lt = ground (arith, holds_below-at n test x)

-- Two functions agree on bytes if they agree at each of them.
checked : (f g : ℕ → ℕ) (x : ℕ) → holds_below 256 (λ y. f y == g y) ≡ true → x < 256 → f x ≡ g x
checked f g x all byte = (==_iff (f x) (g x)).0 (holds_below-at 256 (λ y. f y == g y) x all byte)

-- `&` with the masks of two, four and six bits.
pub and_masks :
    (x : ℕ)
    → x < 256
    → (bit_and x 0x03 ≡ x % 4) × (bit_and x 0x0f ≡ x % 16) × (bit_and x 0x3f ≡ x % 64)
unfolding holds_below
and_masks x byte = (
  checked (λ y. bit_and y 0x03) (λ y. y % 4) x refl byte,
  checked (λ y. bit_and y 0x0f) (λ y. y % 16) x refl byte,
  checked (λ y. bit_and y 0x3f) (λ y. y % 64) x refl byte,
)

or_fields :
    (x : ℕ)
    → x < 256
    → (bit_or (x / 4 * 4) (x % 4) ≡ x)
      × (bit_or (x / 16 * 16) (x % 16) ≡ x)
      × (bit_or (x / 64 * 64) (x % 64) ≡ x)
      × (bit_or (x % 4) (x / 4 * 4) ≡ x)
      × (bit_or (x % 16) (x / 16 * 16) ≡ x)
      × (bit_or (x % 64) (x / 64 * 64) ≡ x)
unfolding holds_below
or_fields x byte = (
  checked (λ y. bit_or (y / 4 * 4) (y % 4)) (λ y. y) x refl byte,
  checked (λ y. bit_or (y / 16 * 16) (y % 16)) (λ y. y) x refl byte,
  checked (λ y. bit_or (y / 64 * 64) (y % 64)) (λ y. y) x refl byte,
  checked (λ y. bit_or (y % 4) (y / 4 * 4)) (λ y. y) x refl byte,
  checked (λ y. bit_or (y % 16) (y / 16 * 16)) (λ y. y) x refl byte,
  checked (λ y. bit_or (y % 64) (y / 64 * 64)) (λ y. y) x refl byte,
)

-- `|` of two fields of a byte is their sum, in either order.
module _ (q r : ℕ) where
  pub or_sum_4 : r < 4 → q < 64 → (bit_or (q * 4) r ≡ q * 4 + r) × (bit_or r (q * 4) ≡ q * 4 + r)
  or_sum_4 low byte =
      let split = or_fields (q * 4 + r) (omega arith) in
      let hi : (q * 4 + r) / 4 * 4 ≡ q * 4 = omega arith in
      let lo : (q * 4 + r) % 4 ≡ r = omega arith in (rw (hi, lo) at split.0, rw (hi, lo) at split.3)

  pub or_sum_16 :
      r < 16 → q < 16 → (bit_or (q * 16) r ≡ q * 16 + r) × (bit_or r (q * 16) ≡ q * 16 + r)
  or_sum_16 low byte =
      let split = or_fields (q * 16 + r) (omega arith) in
      let hi : (q * 16 + r) / 16 * 16 ≡ q * 16 = omega arith in
      let lo : (q * 16 + r) % 16 ≡ r = omega arith in
      (rw (hi, lo) at split.1, rw (hi, lo) at split.4)

  pub or_sum_64 :
      r < 64 → q < 4 → (bit_or (q * 64) r ≡ q * 64 + r) × (bit_or r (q * 64) ≡ q * 64 + r)
  or_sum_64 low byte =
      let split = or_fields (q * 64 + r) (omega arith) in
      let hi : (q * 64 + r) / 64 * 64 ≡ q * 64 = omega arith in
      let lo : (q * 64 + r) % 64 ≡ r = omega arith in
      (rw (hi, lo) at split.2, rw (hi, lo) at split.5)
