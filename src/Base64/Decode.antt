-- ===== src/Base64/Decode.antt =====
-- `b64_to_binary` of modules/binary/base64.c: it reads back what is encoded, and how much it writes.
use Prim.Native.Nat.{bit_or}
use gpsee.Base.{
  ℕ, ◌+◌, ◌*◌, ◌/◌, ◌%◌, ◌<◌, ◌≤◌, ◌≡◌, inl, inr, refl, true, false, Bool, List, [], ◌∷◌, ◌++◌,
  some, arith, ◌==◌, if◌then◌else◌, length, ◌∙◌, ap, ap₂, length-append, length-drop, drop,
  Option-cases,
}
use gpsee.Base.Byte.{or_sum_4, or_sum_16, or_sum_64}
use gpsee.Base64.{
  alphabet, index_of, letter, u8, decode_loop, b64_to_binary, int_max, binary_to_b64,
}
use gpsee.Base64.Written.{returned, filled, binary_to_b64-quartets}
use gpsee.Base64.Text.{AllBytes, nil, cons, quartets, length-quartets, letter_found, pad_found}

-- One letter at each position of a group.
module _ (v pos left : ℕ) (s : List ℕ) (is_letter : v < 64) where
  read_0 : pos % 4 ≡ 0 → decode_loop pos left (letter v ∷ s) ≡ decode_loop (pos + 1) (v * 4) s
  unfolding decode_loop
  read_0 at = let e : u8 (v * 4) ≡ v * 4 = omega arith in ground (arith, letter_found v is_letter)

  read_1 :
      pos % 4 ≡ 1
      → decode_loop pos left (letter v ∷ s)
        ≡ bit_or (v / 16) left ∷ decode_loop (pos + 1) (u8 (v * 16)) s
  unfolding decode_loop
  read_1 at = ground (arith, letter_found v is_letter)

  read_2 :
      pos % 4 ≡ 2
      → decode_loop pos left (letter v ∷ s)
        ≡ bit_or (v / 4) left ∷ decode_loop (pos + 1) (u8 (v * 64)) s
  unfolding decode_loop
  read_2 at = ground (arith, letter_found v is_letter)

  read_3 :
      pos % 4 ≡ 3 → decode_loop pos left (letter v ∷ s) ≡ bit_or v left ∷ decode_loop (pos + 1) 0 s
  unfolding decode_loop
  read_3 at = ground (arith, letter_found v is_letter)

read_pad :
    (pos left : ℕ) (s : List ℕ) → (pos % 4 == 1) ≡ false → decode_loop pos left (b'=' ∷ s) ≡ []
unfolding decode_loop
read_pad pos left s h = ground (arith, pad_found)

-- The three bytes of a group out of its four fields.
module _ (a b c y z : ℕ) (ha : a < 256) (hb : b < 256) (hc : c < 256) (hy : y < 16)
    (hz : z < 4) where
  first_byte : bit_or ((a % 4 * 16 + y) / 16) (a / 4 * 4) ≡ a
  first_byte =
      let e : (a % 4 * 16 + y) / 16 ≡ a % 4 = omega arith in
      rw e (omega (arith, (or_sum_4 (a / 4) (a % 4) (omega arith) (omega arith)).1))

  second_byte : bit_or ((b % 16 * 4 + z) / 4) (u8 ((a % 4 * 16 + b / 16) * 16)) ≡ b
  second_byte =
      let e : (b % 16 * 4 + z) / 4 ≡ b % 16 = omega arith in
      let l : u8 ((a % 4 * 16 + b / 16) * 16) ≡ b / 16 * 16 = omega arith in
      rw (e, l) (omega (arith, (or_sum_16 (b / 16) (b % 16) (omega arith) (omega arith)).1))

  third_byte : bit_or (c % 64) (u8 ((b % 16 * 4 + c / 64) * 64)) ≡ c
  third_byte =
      let l : u8 ((b % 16 * 4 + c / 64) * 64) ≡ c / 64 * 64 = omega arith in
      rw l (omega (arith, (or_sum_64 (c / 64) (c % 64) (omega arith) (omega arith)).1))

decode-quartets :
    (xs : List ℕ) (pos : ℕ) → AllBytes xs → pos % 4 ≡ 0 → decode_loop pos 0 (quartets xs) ≡ xs
unfolding quartets
decode-quartets [] pos bytes at = unfold decode_loop in refl
decode-quartets (a ∷ []) pos (cons ha nil) at =
    let e : a % 4 * 16 + 0 ≡ a % 4 * 16 = omega arith in
    read_0 (a / 4) pos 0 _ (omega arith) at
    ∙ read_1 (a % 4 * 16) (pos + 1) (a / 4 * 4) _ (omega arith) (omega arith)
    ∙ ap₂ ◌∷◌
        (rw e at (first_byte a 0 0 0 0 ha (omega arith) (omega arith) (omega arith) (omega arith)))
        (read_pad (pos + 1 + 1) (u8 (a % 4 * 16 * 16)) _ (ground arith))
decode-quartets (a ∷ b ∷ []) pos (cons ha (cons hb nil)) at =
    let e : b % 16 * 4 + 0 ≡ b % 16 * 4 = omega arith in
    read_0 (a / 4) pos 0 _ (omega arith) at
    ∙ read_1 (a % 4 * 16 + b / 16) (pos + 1) (a / 4 * 4) _ (omega arith) (omega arith)
    ∙ ap₂ ◌∷◌ (first_byte a b 0 (b / 16) 0 ha hb (omega arith) (omega arith) (omega arith)) (
        read_2 (b % 16 * 4) (pos + 1 + 1) (u8 ((a % 4 * 16 + b / 16) * 16)) _ (omega arith)
          (omega arith)
        ∙ ap₂ ◌∷◌ (rw e at (second_byte a b 0 0 0 ha hb (omega arith) (omega arith) (omega arith)))
            (read_pad (pos + 1 + 1 + 1) (u8 (b % 16 * 4 * 64)) _ (ground arith)))
decode-quartets (a ∷ b ∷ c ∷ r) pos (cons ha (cons hb (cons hc bytes))) at =
    read_0 (a / 4) pos 0 _ (omega arith) at
    ∙ read_1 (a % 4 * 16 + b / 16) (pos + 1) (a / 4 * 4) _ (omega arith) (omega arith)
    ∙ ap₂ ◌∷◌ (first_byte a b c (b / 16) (c / 64) ha hb hc (omega arith) (omega arith)) (
        read_2 (b % 16 * 4 + c / 64) (pos + 1 + 1) (u8 ((a % 4 * 16 + b / 16) * 16)) _ (omega arith)
          (omega arith)
        ∙ ap₂ ◌∷◌ (second_byte a b c 0 (c / 64) ha hb hc (omega arith) (omega arith)) (
            read_3 (c % 64) (pos + 1 + 1 + 1) (u8 ((b % 16 * 4 + c / 64) * 64)) _ (omega arith)
              (omega arith)
            ∙ ap₂ ◌∷◌ (third_byte a b c 0 (c / 64) ha hb hc (omega arith) (omega arith))
                (decode-quartets r (pos + 1 + 1 + 1 + 1) bytes (omega arith))))

-- Decoding the base-64 text of some bytes into a buffer of the caller gives the bytes back.
pub b64_to_binary-quartets :
    (grants : ℕ → Bool) (xs : List ℕ)
    → AllBytes xs
    → b64_to_binary grants true (quartets xs) ≡ some xs
unfolding b64_to_binary
b64_to_binary-quartets grants xs bytes = ap some (decode-quartets xs 0 bytes refl)

-- From the position `pos` on, at most three bytes are stored for four characters.
decode_bound :
    (s : List ℕ) (pos left : ℕ)
    → length (decode_loop pos left s) + pos * 3 / 4 ≤ (pos + length s) * 3 / 4
unfolding decode_loop
decode_bound [] pos left = omega arith
decode_bound (ch ∷ s) pos left = elim (Option-cases (index_of alphabet ch)) [
  | inl e ↦ ground arith
  | inr (v, e) ↦ ground (
    arith,
    decode_bound s (pos + 1) (u8 (v * 4)),
    decode_bound s (pos + 1) (u8 (v * 16)),
    decode_bound s (pos + 1) (u8 (v * 64)),
    decode_bound s (pos + 1) 0,
  )
]

-- Whatever the string is, what `b64_to_binary` stores fits the buffer that it allocates itself, of
-- (strlen * 6) / 8 + 1 bytes, and the one of `binary_fromBase64`, of (strlen / 4) * 3 + 2 bytes.
pub length-b64_to_binary :
    (grants : ℕ → Bool) (given : Bool) (s buf : List ℕ)
    → b64_to_binary grants given s ≡ some buf
    → (length buf < length s * 6 / 8 + 1) × (length buf ≤ length s / 4 * 3 + 2)
unfolding b64_to_binary
length-b64_to_binary grants true s buf h = ground (arith, decode_bound s 0 0)
length-b64_to_binary grants false s buf h = ground (arith, decode_bound s 0 0)

-- The C string at the start of a buffer.
pub c_string : List ℕ → List ℕ
c_string [] = []
c_string (x ∷ xs) = if x == 0 then [] else x ∷ c_string xs

c_string-quartets :
    (xs rest : List ℕ) → AllBytes xs → c_string (quartets xs ++ 0 ∷ rest) ≡ quartets xs
unfolding c_string quartets
c_string-quartets [] rest nil = refl
c_string-quartets (a ∷ []) rest (cons ha nil) =
    ground (arith, letter_found (a / 4) (omega arith), letter_found (a % 4 * 16) (omega arith))
c_string-quartets (a ∷ b ∷ []) rest (cons ha (cons hb nil)) = ground (
  arith,
  letter_found (a / 4) (omega arith),
  letter_found (a % 4 * 16 + b / 16) (omega arith),
  letter_found (b % 16 * 4) (omega arith),
)
c_string-quartets (a ∷ b ∷ c ∷ r) rest (cons ha (cons hb (cons hc bytes))) = ground (
  arith,
  letter_found (a / 4) (omega arith),
  letter_found (a % 4 * 16 + b / 16) (omega arith),
  letter_found (b % 16 * 4 + c / 64) (omega arith),
  letter_found (c % 64) (omega arith),
  c_string-quartets r rest bytes,
)

-- What `binary_to_b64` writes into a buffer of the size that its comment asks for is read back by
-- `b64_to_binary` as the input, for every input of bytes that is not empty and has not more of them
-- than an `int` counts.
pub b64_to_binary-binary_to_b64 :
    (grants : ℕ → Bool) (xs out : List ℕ) (j₀ j₁ j₂ : ℕ)
    → AllBytes xs
    → 0 < length xs
    → length xs ≤ int_max
    → (length xs + 2) / 3 * 4 + 1 ≤ length out
    → (n : ℕ) × (buf : List ℕ) × (binary_to_b64 (j₀ ∷ j₁ ∷ j₂ ∷ []) xs (some out)
        ≡ some (n, some buf))
      × (length buf ≡ length out)
      × (b64_to_binary grants true (c_string buf) ≡ some xs)
b64_to_binary-binary_to_b64 grants xs out j₀ j₁ j₂ bytes some_input short room = (
  returned (length xs),
  filled (quartets xs) out,
  binary_to_b64-quartets xs out j₀ j₁ j₂ bytes some_input short room,
  omega (
    arith,
    length-append (quartets xs) (0 ∷ drop (length (quartets xs) + 1) out),
    length-drop (length (quartets xs) + 1) out,
    length-quartets xs,
  ),
  rw (c_string-quartets xs (drop (length (quartets xs) + 1) out) bytes)
      (b64_to_binary-quartets grants xs bytes),
)
