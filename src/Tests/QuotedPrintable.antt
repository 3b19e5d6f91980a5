-- ===== src/Tests/QuotedPrintable.antt =====
-- The quoted-printable codec of modules/binary/base64.c.
use gpsee.Base.{
  ℕ, suc, ◌+◌, ◌≤◌, ◌≡◌, ◌⊎◌, refl, true, List, [], ◌∷◌, ◌++◌, none, some, arith, length, drop,
  replicate,
}
use gpsee.Base.Text.{codes}
use gpsee.Base64.{index_of}
use gpsee.Util.{poke, size_sub}
use gpsee.QuotedPrintable.{
  hex_value, all_blank, decode_low, decode_hex, qp_decode_byte, decode_rounds, qp_to_binary,
  is_forced, qp_encode_byte, append, make_room, break_line, encode_rounds, binary_to_qp_alloc,
}
use gpsee.QuotedPrintable.RoundTrip.{IsPlain, last, cons, encoded, qp_to_binary-binary_to_qp_alloc}
use gpsee.QuotedPrintable.Ends.{qp_to_binary_cases}

abbrev sum : List ℕ
sum = codes "a b=c"

sum-IsPlain : IsPlain sum
sum-IsPlain = cons (omega arith) (omega arith) (omega arith) (
    cons (omega arith) (omega arith) (omega arith) (
      cons (omega arith) (omega arith) (omega arith)
        (cons (omega arith) (omega arith) (omega arith) (last (omega arith) refl))))

abbrev block : List ℕ
block = replicate 9 7

sum_text : encoded none 0 sum ≡ codes "a b=3Dc"
unfolding encoded qp_encode_byte is_forced
sum_text = refl

sum_short : length (encoded none 0 sum) ≤ 75
unfolding encoded qp_encode_byte is_forced
sum_short = omega arith

qp_to_binary-binary_to_qp_alloc_example :
    (text : List ℕ) × (binary_to_qp_alloc (λ n. true) none 0 sum ≡ some (some text))
    × (qp_to_binary text block 0 ≡ some (length sum, sum ++ 0 ∷ drop (suc (length sum)) block))
qp_to_binary-binary_to_qp_alloc_example =
    qp_to_binary-binary_to_qp_alloc none 0 (λ n. true) sum block (λ n. refl) sum-IsPlain sum_short
      (omega arith)

qp_to_binary_cases_example :
    ((n : ℕ) × (block' : List ℕ) × (qp_to_binary (codes "x=4") block 0 ≡ some (n, block'))
      × (n ≤ 0 + length (codes "x=4"))
      × (length block' ≡ length block))
    ⊎ ((qp_to_binary (codes "x=4") block 0 ≡ none)
        × (front : List ℕ) × (digit : ℕ) × (codes "x=4" ≡ front ++ b'=' ∷ digit ∷ []))
qp_to_binary_cases_example = qp_to_binary_cases (codes "x=4") block 0 (omega arith)

-- The text that is cut short in an escape is read behind its NUL.
cut_short : qp_to_binary (codes "x=4") block 0 ≡ none
unfolding qp_to_binary poke decode_rounds qp_decode_byte decode_hex decode_low hex_value index_of
    all_blank
cut_short = refl

-- The soft line break after 75 letters comes back as it is.
abbrev letters : List ℕ
letters = replicate 76 b'a'

soft_break :
    binary_to_qp_alloc (λ n. true) none 0 letters
    ≡ some (some (replicate 75 b'a' ++ b'=' ∷ b'\r' ∷ b'\n' ∷ b'a' ∷ []))
unfolding binary_to_qp_alloc encode_rounds make_room break_line append qp_encode_byte is_forced
    size_sub
soft_break = refl

soft_break_kept :
    qp_to_binary (b'a' ∷ b'=' ∷ b'\r' ∷ b'\n' ∷ b'a' ∷ []) block 0
    ≡ some (5, b'a' ∷ b'=' ∷ b'\r' ∷ b'\n' ∷ b'a' ∷ 0 ∷ replicate 3 7)
unfolding qp_to_binary poke decode_rounds qp_decode_byte decode_hex decode_low hex_value index_of
    all_blank
soft_break_kept = refl
