-- ===== src/Bytes/Needle.antt =====
-- The byte that indexOf and lastIndexOf look for (byteThing_val2byte of modules/binary/bytethings.c).
use gpsee.Base.{
  ℕ, ◌≡◌, ◌⊎◌, inl, inr, refl, Option, none, some, arith, ltb, ◌==◌, ◌||◌, ◌&&◌, not, true, false,
  zero, suc, ap, if◌then◌else◌, Bool-cases,
}
use gpsee.Bytes.{
  Double, whole, fraction, Kind, primitive, null, byte_thing, other_object, number2byte,
  invalid_value, Thrown, ok, thrown, val2byte,
}

-- The byte that a number is, and that a needle is: of an object of the two classes with one byte, what
-- JS_ValueToNumber makes of the object.
unfoldable pub byte_of : Option Double → Option ℕ
byte_of none = none
byte_of (some (fraction sign)) = none
byte_of (some (whole sign n)) = if (n == 0) || (not sign && ltb n 256) then some n else none

unfoldable pub needle_of : Kind → Option Double → Option ℕ
needle_of primitive d = byte_of d
needle_of null d = none
needle_of (byte_thing len) d = if len == 1 then byte_of d else none
needle_of other_object d = none

abbrev pub NotNull : Kind → Type 0
NotNull primitive = Unit
NotNull null = ⊥
NotNull (byte_thing len) = Unit
NotNull other_object = Unit

number2byte-byte_of :
    (d : Option Double)
    → ((e : Thrown) × (number2byte d ≡ thrown e) × (byte_of d ≡ none))
      ⊎ ((n : ℕ) × (number2byte d ≡ ok n) × (byte_of d ≡ some n))
unfolding number2byte byte_of
number2byte-byte_of none = inl (_, refl, refl)
number2byte-byte_of (some (fraction sign)) = inl (_, refl, refl)
number2byte-byte_of (some (whole true zero)) = inr (_, refl, refl)
number2byte-byte_of (some (whole false zero)) = inr (_, refl, refl)
number2byte-byte_of (some (whole true (suc n))) = inl (invalid_value, ground arith, ground arith)
number2byte-byte_of (some (whole false (suc n))) = elim (Bool-cases (ltb (suc n) 256)) [
  | inl h ↦ inr (suc n, ground (arith, h), ground (arith, h))
  | inr h ↦ inl (invalid_value, ground (arith, h), ground (arith, h))
]

pub val2byte-needle_of :
    (kind : Kind) (d : Option Double)
    → NotNull kind
    → ((e : Thrown) × (val2byte kind d ≡ some (thrown e)) × (needle_of kind d ≡ none))
      ⊎ ((n : ℕ) × (val2byte kind d ≡ some (ok n)) × (needle_of kind d ≡ some n))
unfolding val2byte needle_of
val2byte-needle_of primitive d is = elim (number2byte-byte_of d) [
  | inl (e, f, g) ↦ inl (e, ap some f, g)
  | inr (n, f, g) ↦ inr (n, ap some f, g)
]
val2byte-needle_of null d is = absurd is
val2byte-needle_of (byte_thing len) d is = elim (Bool-cases (len == 1)) [
  | inr h ↦ rw (val2byte, h, needle_of) (inl (_, refl, refl))
  | inl h ↦
      rw (val2byte, h, needle_of)
        (elim (number2byte-byte_of d) [
          | inl (e, f, g) ↦ inl (e, ap some f, g)
          | inr (n, f, g) ↦ inr (n, ap some f, g)
        ])
]
val2byte-needle_of other_object d is = inl (_, refl, refl)
