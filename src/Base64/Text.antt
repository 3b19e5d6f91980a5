-- ===== src/Base64/Text.antt =====
-- What a base-64 text is, on the side of the specification (modules/binary/base64.c).
use gpsee.Base.{
  ℕ, ◌+◌, ◌*◌, ◌/◌, ◌%◌, ◌<◌, ◌≡◌, refl, true, false, not, ◌&&◌, List, [], ◌∷◌, Option, none, some,
  arith, ◌==◌, length, Bool,
}
use gpsee.Base.Byte.{holds_below, holds_below-at, and_masks, or_sum_4, or_sum_16}
use gpsee.Base64.{alphabet, index_of, letter, encode_3bytes}

abbrev pub IsByte : ℕ → Type 0
IsByte x = x < 256

pub data AllBytes : List ℕ → Type 0 where
  nil : AllBytes []
  cons : {x : ℕ} {xs : List ℕ} → x < 256 → AllBytes xs → AllBytes (x ∷ xs)

-- Four letters for three bytes, the last group padded with `=`.
unfoldable pub quartets : List ℕ → List ℕ
quartets [] = []
quartets (a ∷ []) = letter (a / 4) ∷ letter (a % 4 * 16) ∷ b'=' ∷ b'=' ∷ []
quartets (a ∷ b ∷ []) =
    letter (a / 4) ∷ letter (a % 4 * 16 + b / 16) ∷ letter (b % 16 * 4) ∷ b'=' ∷ []
quartets (a ∷ b ∷ c ∷ r) =
    letter (a / 4)
    ∷ letter (a % 4 * 16 + b / 16)
    ∷ letter (b % 16 * 4 + c / 64)
    ∷ letter (c % 64)
    ∷ quartets r

pub length-quartets : (xs : List ℕ) → length (quartets xs) ≡ (length xs + 2) / 3 * 4
unfolding quartets
length-quartets [] = refl
length-quartets (a ∷ []) = refl
length-quartets (a ∷ b ∷ []) = refl
length-quartets (a ∷ b ∷ c ∷ r) = omega (arith, length-quartets r)

is_some_at : Option ℕ → ℕ → Bool
is_some_at none v = false
is_some_at (some x) v = x == v

is_some_at_lem : (o : Option ℕ) (v : ℕ) → is_some_at o v ≡ true → o ≡ some v
unfolding is_some_at
is_some_at_lem none v h = cc
is_some_at_lem (some x) v h = ground arith

letter_test : ℕ → Bool
letter_test v =
    is_some_at (index_of alphabet (letter v)) v && (not (letter v == b'=') && not (letter v == 0))

letter_table : holds_below 64 letter_test ≡ true
unfolding holds_below letter_test is_some_at index_of letter
letter_table = refl

-- Each of the 64 letters is found at its place, and is neither the padding nor NUL.
pub letter_found :
    (v : ℕ)
    → v < 64
    → (index_of alphabet (letter v) ≡ some v)
      × ((letter v == b'=') ≡ false)
      × ((letter v == 0) ≡ false)
unfolding letter_test
letter_found v h =
    let passed = holds_below-at 64 letter_test v letter_table h in
    (is_some_at_lem (index_of alphabet (letter v)) v (ground arith), ground arith, ground arith)

pub pad_found : index_of alphabet b'=' ≡ some 64
unfolding index_of
pad_found = refl

-- What `b64_encode_3bytes` writes for bytes, as sums of the fields.
pub encode_3bytes_lem :
    (a b c : ℕ)
    → a < 256
    → b < 256
    → c < 256
    → encode_3bytes a (some b) (some c)
      ≡ letter (a / 4)
        ∷ letter (a % 4 * 16 + b / 16)
        ∷ letter (b % 16 * 4 + c / 64)
        ∷ letter (c % 64)
        ∷ []
unfolding encode_3bytes
encode_3bytes_lem a b c ha hb hc = rw (
  (and_masks a ha).0,
  (and_masks b hb).1,
  (and_masks c hc).2,
  (or_sum_16 (a % 4) (b / 16) (omega arith) (omega arith)).0,
  (or_sum_4 (b % 16) (c / 64) (omega arith) (omega arith)).0,
)
