-- ===== src/QuotedPrintable.antt =====
-- The quoted-printable half of modules/binary/base64.c. A C string is the list of its bytes before the
-- NUL; `none` is a read behind the NUL, or a write behind the end of a block.
pub mod Bytes
pub mod RoundTrip
pub mod Bounds
pub mod Ends
use gpsee.Base.{
  ℕ, zero, suc, ◌+◌, ◌-◌, ◌*◌, ◌/◌, ◌%◌, Bool, true, false, not, ◌&&◌, ◌||◌, List, [], ◌∷◌, ◌++◌,
  Option, none, some, ltb, leb, ◌==◌, if◌then◌else◌, length, get_or, drop,
}
use gpsee.Base.Text.{codes}
use gpsee.Base64.{index_of, u8}
use gpsee.Util.{◌>>=◌, poke, size_sub}

abbrev pub hex : List ℕ
hex = codes "0123456789ABCDEF"

-- `strchr(hex, c)`, which finds the NUL too.
unfoldable pub hex_value : ℕ → Option ℕ
hex_value c = if c == 0 then some 16 else index_of hex c

-- A byte of " \t\n\r".
abbrev pub is_blank : ℕ → Bool
is_blank c = c == b' ' || c == b'\t' || c == b'\n' || c == b'\r'

-- `strspn(s, " \t\n\r") == strlen(s)`
unfoldable pub all_blank : List ℕ → Bool
all_blank [] = true
all_blank (c ∷ s) = is_blank c && all_blank s

-- Rule #2.
abbrev pub is_literal : ℕ → Bool
is_literal c = leb 33 c && leb c 126 && not (c == b'=')

-- What a call decodes, if it emits a byte, and where it ends.
pub record Decoded : Type 0 where
  pub byte : Option ℕ
  pub rest : Option (List ℕ)

abbrev pub as_is : ℕ → List ℕ → Decoded
as_is c s = record { byte = some c; rest = some s }

-- The end of trailing whitespace: the CR that stands before an LF, or the LF, or the end.
unfoldable pub line_end : List ℕ → List ℕ
line_end s = elim (index_of s b'\n') [
  | none ↦ []
  | some lf ↦ elim (index_of s b'\r') [
    | none ↦ drop lf s
    | some cr ↦ if ltb cr lf then drop cr s else drop lf s
  ]
]

-- Behind the "=" at the start: the second digit, with the first one read.
unfoldable pub decode_low : List ℕ → ℕ → Decoded
decode_low t high = elim (hex_value (get_or t 1 0)) [
  | none ↦ as_is b'=' t
  | some low ↦ record {
    byte = some (u8 (high * 16 + low));
    rest = if leb 2 (length t) then some (drop 2 t) else none;
  }
]

unfoldable pub decode_hex : List ℕ → Decoded
decode_hex t = elim (hex_value (get_or t 0 0)) [
  | none ↦ as_is b'=' t
  | some high ↦ decode_low t high
]

unfoldable pub qp_decode_byte : ℕ → List ℕ → Decoded
qp_decode_byte c t =
    if is_literal c
    then as_is c t
    else (if c == b' ' || c == b'\t'
        then (if all_blank t
            then (record { byte = none; rest = some (line_end (c ∷ t)) })
            else as_is c t)
        else (if c == b'='
            then (if all_blank t then (record { byte = none; rest = some [] }) else decode_hex t)
            else as_is c t))

-- The loop of `qp_to_binary` on fuel, with `*outLen_p` and the output block.
unfoldable pub decode_rounds : ℕ → List ℕ → ℕ → List ℕ → Option (ℕ × List ℕ)
decode_rounds zero qp at block = none
decode_rounds (suc fuel) [] at block = some (at, block)
decode_rounds (suc fuel) (c ∷ t) at block = elim (qp_decode_byte c t).rest [
  | none ↦ none
  | some rest ↦ elim (qp_decode_byte c t).byte [
    | none ↦ decode_rounds fuel rest at block
    | some b ↦ elim (poke at b block) [
      | none ↦ none
      | some block' ↦ decode_rounds fuel rest (at + 1) block'
    ]
  ]
]

-- With `outBuf` and `*outLen_p` as the caller passes them: the number of bytes, and the block.
unfoldable pub qp_to_binary : List ℕ → List ℕ → ℕ → Option (ℕ × List ℕ)
qp_to_binary qp block at = poke 0 0 block >>= λ b.
    decode_rounds (length qp + 1) qp at b >>= λ (n, b'). poke n 0 b' >>= λ b''. some (n, b'')

-- `allocated n` is what JS_malloc gives for `n` bytes, `none` is NULL; the inner `none` of the
-- result is NULL.
unfoldable pub qp_to_binary_alloc :
    (ℕ → Option (List ℕ)) → List ℕ → ℕ → Option (Option (ℕ × List ℕ))
qp_to_binary_alloc allocated qp at = elim (allocated (length qp)) [
  | none ↦ some none
  | some block ↦ qp_to_binary qp block at >>= λ r. some (some r)
]

abbrev pub hex_digit : ℕ → ℕ
hex_digit n = if ltb n 10 then b'0' + n else b'A' + (n - 10)

-- "=%02X"
abbrev pub escaped : ℕ → List ℕ
escaped c = b'=' ∷ hex_digit (c / 16) ∷ hex_digit (c % 16) ∷ []

-- `strchr(force, c)`, which finds the NUL too.
unfoldable pub is_forced : Option (List ℕ) → ℕ → Bool
is_forced none c = false
is_forced (some force) c = c == 0 || (elim (index_of force c) [ none ↦ false | some i ↦ true ])

-- A byte and the one behind it.
unfoldable pub qp_encode_byte : Option (List ℕ) → ℕ → ℕ → List ℕ
qp_encode_byte force c next =
    if is_forced force c
    then escaped c
    else (if is_literal c
        then c ∷ []
        else (if c == b' ' || c == b'\t'
            then (if next == b'\n' || next == b'\r' then escaped c else c ∷ [])
            else (if c == b'\r'
                then []
                else (if c == b'\n' then b'\r' ∷ b'\n' ∷ [] else escaped c))))

-- The state of the loop of `binary_to_qp_alloc`: the bytes of `buf` that are used, how many there are,
-- `last_cr`.
pub record Buffer : Type 0 where
  pub text : List ℕ
  pub alloc : ℕ
  pub last_cr : ℕ

-- `memcpy` to the end of the text.
unfoldable pub append : List ℕ → Buffer → Option Buffer
append s b =
    if ltb b.alloc (length b.text + length s) then none else some (record b { text = b.text ++ s })

module _ (grants : ℕ → Bool) (force : Option (List ℕ)) where
  -- Room for eight more bytes; `none` is a refusal.
  unfoldable pub make_room : Buffer → Option Buffer
  make_room b =
      if leb b.alloc (length b.text + 8)
      then (if grants (b.alloc + 256) then some (record b { alloc = b.alloc + 256 }) else none)
      else some b

  -- A soft line break where one is due, and where the line begins.
  unfoldable pub break_line : List ℕ → Buffer → Option Buffer
  break_line piece b =
      if get_or piece 0 0 == b'\r'
      then some (record b { last_cr = length b.text + 2 })
      else (if leb 75 (size_sub (length b.text) b.last_cr)
          then (append (b'=' ∷ b'\r' ∷ b'\n' ∷ []) b >>= λ b'.
              some (record b' { last_cr = length b'.text }))
          else some b)

  -- The outer `none` is a write behind the block, the inner one NULL. The last byte looks at
  -- `beyond`, which stands behind the input.
  unfoldable pub encode_rounds : ℕ → List ℕ → Buffer → Option (Option Buffer)
  encode_rounds beyond [] b = some (some b)
  encode_rounds beyond (c ∷ s) b = elim (make_room b) [
    | none ↦ some none
    | some b₁ ↦ elim (break_line (qp_encode_byte force c (get_or s 0 beyond)) b₁) [
      | none ↦ none
      | some b₂ ↦ elim (append (qp_encode_byte force c (get_or s 0 beyond)) b₂) [
        | none ↦ none
        | some b₃ ↦ encode_rounds beyond s b₃
      ]
    ]
  ]

  -- The text before the NUL.
  unfoldable pub binary_to_qp_alloc : ℕ → List ℕ → Option (Option (List ℕ))
  binary_to_qp_alloc beyond xs =
      let start = length xs + length xs / 10 in
      if length xs == 0
      then some (some [])
      else (if grants start
          then (encode_rounds beyond xs (record { text = []; alloc = start; last_cr = 0 }) >>= λ r.
              elim r [ none ↦ some none | some b ↦ append (0 ∷ []) b >>= λ b'. some (some b.text) ])
          else some none)
