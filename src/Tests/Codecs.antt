-- ===== src/Tests/Codecs.antt =====
-- The codecs of modules/binary/base64.c.
use gpsee.Base.{ℕ, ◌≡◌, refl, true, List, [], ◌∷◌, some, arith, length, replicate}
use gpsee.Base64.{binary_to_b64, b64_to_binary, codes, decode_loop, index_of, letter}
use gpsee.Base64.Text.{AllBytes, nil, cons, quartets}
use gpsee.Base64.Written.{returned, filled, binary_to_b64-quartets}
use gpsee.Base64.Decode.{c_string, b64_to_binary-binary_to_b64}

abbrev man : List ℕ
man = codes "Many"

man-AllBytes : AllBytes man
man-AllBytes = cons (omega arith) (cons (omega arith) (cons (omega arith) (cons (omega arith) nil)))

abbrev buffer : List ℕ
buffer = replicate 10 7

many_text : quartets man ≡ codes "TWFueQ=="
unfolding quartets letter
many_text = refl

binary_to_b64-quartets_example :
    binary_to_b64 (7 ∷ 8 ∷ 9 ∷ []) man (some buffer)
    ≡ some (returned 4, some (filled (quartets man) buffer))
binary_to_b64-quartets_example =
    binary_to_b64-quartets man buffer 7 8 9 man-AllBytes (omega arith) (omega arith) (omega arith)

-- The number returned is 6, and the text has 8 letters.
returned_short : returned 4 ≡ 6
returned_short = refl

b64_to_binary-binary_to_b64_example :
    (n : ℕ) × (buf : List ℕ) × (binary_to_b64 (7 ∷ 8 ∷ 9 ∷ []) man (some buffer)
      ≡ some (n, some buf))
    × (length buf ≡ length buffer)
    × (b64_to_binary (λ n. true) true (c_string buf) ≡ some man)
b64_to_binary-binary_to_b64_example =
    b64_to_binary-binary_to_b64 (λ n. true) man buffer 7 8 9 man-AllBytes (omega arith)
      (omega arith) (omega arith)

decoded : b64_to_binary (λ n. true) true (codes "TWFueQ==") ≡ some man
unfolding b64_to_binary decode_loop index_of
decoded = refl
