-- ===== src/QuotedPrintable/Bytes.antt =====
-- One byte of quoted-printable text (modules/binary/base64.c): what is encoded is decoded.
use gpsee.Base.{
  ℕ, ◌/◌, ◌%◌, ◌<◌, ◌≤◌, ◌≡◌, ◌≢◌, refl, ◌⊎◌, inl, inr, Bool, true, false, List, [], ◌∷◌, ◌++◌,
  Option, none, some, arith, ◌==◌, Option-cases, length,
}
use gpsee.Base.Byte.{holds_below, holds_below-at}
use gpsee.Base64.{index_of}
use gpsee.QuotedPrintable.{
  hex_value, is_blank, all_blank, is_literal, decode_low, decode_hex, qp_decode_byte, hex_digit,
  escaped, qp_encode_byte,
}

finds : ℕ → Bool
finds d = elim (hex_value (hex_digit d)) [ none ↦ false | some i ↦ i == d ]

digit_table : holds_below 16 finds ≡ true
unfolding holds_below finds hex_value index_of
digit_table = refl

hex_value-hex_digit : (d : ℕ) → d < 16 → hex_value (hex_digit d) ≡ some d
unfolding finds
hex_value-hex_digit d small =
    let passed = holds_below-at 16 finds d digit_table small in
    elim (Option-cases (hex_value (hex_digit d))) [
      | inl h ↦ ground (arith, passed, h)
      | inr (i, h) ↦ ground (arith, passed, h)
    ]

digit_black : (d : ℕ) → d < 16 → is_blank (hex_digit d) ≡ false
digit_black d small = ground arith

module _ (c : ℕ) (byte : c < 256) (rest : List ℕ) where
  escaped_decodes :
      qp_decode_byte b'=' (hex_digit (c / 16) ∷ hex_digit (c % 16) ∷ rest)
      ≡ record { byte = some c; rest = some rest }
  unfolding qp_decode_byte all_blank decode_hex decode_low
  escaped_decodes = ground (
    arith,
    hex_value-hex_digit (c / 16) (omega arith),
    hex_value-hex_digit (c % 16) (omega arith),
    digit_black (c / 16) (omega arith),
  )

  blank_decodes :
      is_blank c ≡ true
      → c ≢ b'\n'
      → c ≢ b'\r'
      → all_blank rest ≡ false
      → qp_decode_byte c rest ≡ record { byte = some c; rest = some rest }
  unfolding qp_decode_byte
  blank_decodes blank lf cr black = ground arith

  literal_decodes :
      is_literal c ≡ true → qp_decode_byte c rest ≡ record { byte = some c; rest = some rest }
  unfolding qp_decode_byte
  literal_decodes literal = rw (literal, qp_decode_byte)

module _ (force : Option (List ℕ)) (c next : ℕ) where
  encode_cases :
      c ≢ b'\n'
      → c ≢ b'\r'
      → (qp_encode_byte force c next ≡ escaped c)
        ⊎ ((qp_encode_byte force c next ≡ c ∷ []) × ((is_literal c ≡ true) ⊎ (is_blank c ≡ true)))
  unfolding qp_encode_byte
  encode_cases lf cr = ground arith

  -- A byte that is no line break becomes one byte or three, which are decoded as the byte in front of
  -- any text, or of any that is not blank if the byte is.
  pub record Written (text : List ℕ) : Type 0 where
    pub head : ℕ
    pub tail : List ℕ
    pub split : text ≡ head ∷ tail
    pub decoded :
        (rest : List ℕ)
        → (is_blank c ≡ true → all_blank rest ≡ false)
        → qp_decode_byte head (tail ++ rest) ≡ record { byte = some c; rest = some rest }
    pub black : is_blank c ≡ false → is_blank head ≡ false
    pub short : length tail ≤ 2
    pub line : head ≢ b'\r'

  pub qp_encode_byte-Written :
      c < 256 → c ≢ b'\n' → c ≢ b'\r' → Written (qp_encode_byte force c next)
  qp_encode_byte-Written byte lf cr = elim (encode_cases lf cr) [
    | inl e ↦ rw e (record {
      head = b'=';
      tail = hex_digit (c / 16) ∷ hex_digit (c % 16) ∷ [];
      split = refl;
      decoded = λ rest h. escaped_decodes c byte rest;
      black = λ h. refl;
      short = omega arith;
      line = omega arith;
    })
    | inr (e, inl literal) ↦ rw e (record {
      head = c;
      tail = [];
      split = refl;
      decoded = λ rest h. literal_decodes c byte rest literal;
      black = λ h. h;
      short = omega arith;
      line = cr;
    })
    | inr (e, inr blank) ↦ rw e (record {
      head = c;
      tail = [];
      split = refl;
      decoded = λ rest h. blank_decodes c byte rest blank lf cr (h blank);
      black = λ h. h;
      short = omega arith;
      line = cr;
    })
  ]
