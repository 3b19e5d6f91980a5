-- ===== src/QuotedPrintable/Ends.antt =====
-- The quoted-printable decoder (modules/binary/base64.c) on any input: it ends, and what it writes fits
-- a block that is longer than the text.
use mathlib.Core.List.{append-nil, append_assoc}
use gpsee.Base.{
  ℕ, zero, suc, ◌+◌, ◌<◌, ◌≤◌, ◌≡◌, ◌≢◌, refl, sym, ap, ap₂, ◌∙◌, ◌⊎◌, inl, inr, false, ◌||◌, List,
  [], ◌∷◌, ◌++◌, Option, none, some, arith, ltb, leb, ◌==◌, Bool-cases, Option-cases, length,
  get_or, set, take, drop, length-set, length-drop,
}
use gpsee.Base64.{index_of}
use gpsee.Util.{poke}
use gpsee.Util.Copy.{poke_inside}
use gpsee.QuotedPrintable.{
  hex_value, all_blank, is_literal, Decoded, as_is, line_end, decode_low, decode_hex,
  qp_decode_byte, decode_rounds, qp_to_binary,
}

take-drop : (n : ℕ) (s : List ℕ) → take n s ++ drop n s ≡ s
take-drop zero s = refl
take-drop (suc n) [] = refl
take-drop (suc n) (x ∷ s) = ap (λ (t : List ℕ). x ∷ t) (take-drop n s)

-- The rest is a proper end of the text.
pub record IsRest (c : ℕ) (t rest : List ℕ) : Type 0 where
  pub front : List ℕ
  pub split : c ∷ t ≡ front ++ rest
  pub shorter : length rest ≤ length t

IsRest-drop : (n c : ℕ) (t : List ℕ) → IsRest c t (drop n t)
IsRest-drop n c t = record {
  front = c ∷ take n t;
  split = ap (λ (s : List ℕ). c ∷ s) (sym (take-drop n t));
  shorter = omega (arith, length-drop n t);
}

IsRest-self : (c : ℕ) (t : List ℕ) → IsRest c t t
IsRest-self c t = IsRest-drop 0 c t

IsRest-nil : (c : ℕ) (t : List ℕ) → IsRest c t []
IsRest-nil c t = record { front = c ∷ t; split = sym (append-nil (c ∷ t)); shorter = omega arith }

index_of_behind :
    (c : ℕ) (t : List ℕ) (x : ℕ)
    → c ≢ x
    → index_of (c ∷ t) x ≡ (elim (index_of t x) [ none ↦ none | some i ↦ some (suc i) ])
unfolding index_of
index_of_behind c t x ne = ground (arith, ne)

IsRest-line_end : (c : ℕ) (t : List ℕ) → c ≢ b'\n' → c ≢ b'\r' → IsRest c t (line_end (c ∷ t))
unfolding line_end
IsRest-line_end c t lf cr =
    let at_lf = index_of_behind c t b'\n' lf in
    let at_cr = index_of_behind c t b'\r' cr in
    elim (Option-cases (index_of t b'\n')) [
      | inl h ↦ rw (at_lf, h, line_end) (IsRest-nil c t)
      | inr (i, h) ↦ elim (Option-cases (index_of t b'\r')) [
        | inl g ↦ rw (at_lf, h, at_cr, g, line_end) (IsRest-drop i c t)
        | inr (j, g) ↦ elim (Bool-cases (ltb (suc j) (suc i))) [
          | inl e ↦ rw (at_lf, h, at_cr, g, e, line_end) (IsRest-drop j c t)
          | inr e ↦ rw (at_lf, h, at_cr, g, e, line_end) (IsRest-drop i c t)
        ]
      ]
    ]

-- A proper end of the text, or a read behind the NUL, which is met only at "=" and one byte more.
abbrev pub IsEnd : ℕ → List ℕ → Decoded → Type 0
IsEnd c t d =
    ((rest : List ℕ) × (d.rest ≡ some rest) × IsRest c t rest)
    ⊎ ((d.rest ≡ none) × (c ≡ b'=') × (length t ≡ 1))

IsEnd-as_is : (b c : ℕ) (t : List ℕ) → IsEnd c t (as_is b t)
IsEnd-as_is b c t = inl (t, refl, IsRest-self c t)

length-ne-zero : (t : List ℕ) → all_blank t ≡ false → 0 < length t
unfolding all_blank
length-ne-zero [] h = ground (arith, h)
length-ne-zero (x ∷ t) h = omega arith

decode_low-IsEnd :
    (c : ℕ) (t : List ℕ) (high : ℕ) → c ≡ b'=' → 0 < length t → IsEnd c t (decode_low t high)
unfolding decode_low
decode_low-IsEnd c t high eq some_left = elim (Option-cases (hex_value (get_or t 1 0))) [
  | inl h ↦ rw (h, decode_low) (IsEnd-as_is b'=' c t)
  | inr (low, h) ↦ elim (Bool-cases (leb 2 (length t))) [
    | inl g ↦ rw (h, decode_low, g) (inl (drop 2 t, refl, IsRest-drop 2 c t))
    | inr g ↦ rw (h, decode_low, g) (inr (refl, eq, ground (arith, g, some_left)))
  ]
]

decode_hex-IsEnd : (c : ℕ) (t : List ℕ) → c ≡ b'=' → 0 < length t → IsEnd c t (decode_hex t)
unfolding decode_hex
decode_hex-IsEnd c t eq some_left = elim (Option-cases (hex_value (get_or t 0 0))) [
  | inl h ↦ rw (h, decode_hex) (IsEnd-as_is b'=' c t)
  | inr (high, h) ↦ rw (h, decode_hex) (decode_low-IsEnd c t high eq some_left)
]

qp_decode_byte-IsEnd : (c : ℕ) (t : List ℕ) → IsEnd c t (qp_decode_byte c t)
unfolding qp_decode_byte
qp_decode_byte-IsEnd c t = elim (Bool-cases (is_literal c)) [
  | inl h ↦ rw (h, qp_decode_byte) (IsEnd-as_is c c t)
  | inr h ↦ elim (Bool-cases (c == b' ' || c == b'\t')) [
    | inl g ↦ elim (Bool-cases (all_blank t)) [
      | inl e ↦
          rw (h, qp_decode_byte, g, e)
            (inl
              (line_end (c ∷ t), refl, IsRest-line_end c t (ground (arith, g)) (ground (arith, g))))
      | inr e ↦ rw (h, qp_decode_byte, g, e) (IsEnd-as_is c c t)
    ]
    | inr g ↦ elim (Bool-cases (c == b'=')) [
      | inr f ↦ rw (h, qp_decode_byte, g, f) (IsEnd-as_is c c t)
      | inl f ↦ elim (Bool-cases (all_blank t)) [
        | inl e ↦ rw (h, qp_decode_byte, g, f, e) (inl ([], refl, IsRest-nil c t))
        | inr e ↦
            rw (h, qp_decode_byte, g, f, e)
              (decode_hex-IsEnd c t (ground (arith, f)) (length-ne-zero t e))
      ]
    ]
  ]
]

-- The text is cut short in an escape.
pub record IsCutShort (qp : List ℕ) : Type 0 where
  pub front : List ℕ
  pub digit : ℕ
  pub split : qp ≡ front ++ b'=' ∷ digit ∷ []

one_left : (t : List ℕ) → length t ≡ 1 → (d : ℕ) × (t ≡ d ∷ [])
one_left [] h = absurd (omega (arith, h))
one_left (d ∷ []) h = (d, refl)
one_left (d ∷ e ∷ t) h = absurd (omega (arith, h))

last_digit-IsCutShort : (c : ℕ) (t : List ℕ) → c ≡ b'=' → length t ≡ 1 → IsCutShort (c ∷ t)
last_digit-IsCutShort c t eq one =
    let (d, h) = one_left t one in
    record { front = []; digit = d; split = ap₂ (λ (x : ℕ) (s : List ℕ). x ∷ s) eq h }

behind-IsCutShort :
    (c : ℕ) (t rest : List ℕ) → IsRest c t rest → IsCutShort rest → IsCutShort (c ∷ t)
behind-IsCutShort c t rest r cut = record {
  front = r.front ++ cut.front;
  digit = cut.digit;
  split =
      r.split
      ∙ ap (λ (s : List ℕ). r.front ++ s) cut.split
      ∙ sym (append_assoc r.front cut.front (b'=' ∷ cut.digit ∷ []));
}

-- What a run gives from a place: at most so many bytes in a block of the same length, or nothing, of a
-- text that is cut short.
abbrev pub IsRun : List ℕ → List ℕ → ℕ → Option (ℕ × List ℕ) → Type 0
IsRun qp block at result =
    ((n : ℕ) × (block' : List ℕ) × (result ≡ some (n, block'))
      × (n ≤ at + length qp)
      × (length block' ≡ length block))
    ⊎ ((result ≡ none) × IsCutShort qp)

-- A run from behind a call is a run from before it, with a byte more at most.
IsRun-behind :
    (c : ℕ) (t rest block block₁ : List ℕ) (at at₁ : ℕ) (result : Option (ℕ × List ℕ))
    → IsRest c t rest
    → at₁ ≤ at + 1
    → length block₁ ≡ length block
    → IsRun rest block₁ at₁ result
    → IsRun (c ∷ t) block at result
IsRun-behind c t rest block block₁ at at₁ result r le same (inl (n, b, eq, bound, len)) =
    inl (n, b, eq, omega (arith, bound, le, r.shorter), len ∙ same)
IsRun-behind c t rest block block₁ at at₁ result r le same (inr (none_left, cut)) =
    inr (none_left, behind-IsCutShort c t rest r cut)

decode_rounds-IsRun :
    (fuel : ℕ) (qp block : List ℕ) (at : ℕ)
    → length qp < fuel
    → at + length qp < length block
    → IsRun qp block at (decode_rounds fuel qp at block)
unfolding decode_rounds poke
decode_rounds-IsRun zero qp block at lt room = absurd (omega (arith, lt))
decode_rounds-IsRun (suc fuel) [] block at lt room = inl (at, block, refl, omega arith, refl)
decode_rounds-IsRun (suc fuel) (c ∷ t) block at lt room = elim (qp_decode_byte-IsEnd c t) [
  | inr (behind, eq, one) ↦
      rw (behind, decode_rounds) (inr (refl, last_digit-IsCutShort c t eq one))
  | inl (rest, h, r) ↦ elim (Option-cases (qp_decode_byte c t).byte) [
    | inl g ↦
        rw (h, decode_rounds, g)
          (IsRun-behind c t rest block block at at _ r (omega arith) refl (
            decode_rounds-IsRun fuel rest block at (omega (arith, lt, r.shorter))
              (omega (arith, room, r.shorter))))
    | inr (b, g) ↦
        rw (h, decode_rounds, g, poke_inside at b block (omega (arith, room)))
          (IsRun-behind c t rest block (set block at b) at (at + 1) _ r (omega arith)
            (length-set block at b)
            (decode_rounds-IsRun fuel rest (set block at b) (at + 1) (omega (arith, lt, r.shorter))
              (omega (arith, room, r.shorter, length-set block at b))))
  ]
]

-- In a block that is longer than the text and what stands in it, the decoder ends, writes at most as
-- many bytes as the text has, and leaves the length of the block; or it reads behind the NUL, and
-- then the text holds an "=" in the place before its last.
pub qp_to_binary_cases :
    (qp block : List ℕ) (at : ℕ)
    → at + length qp < length block
    → ((n : ℕ) × (block' : List ℕ) × (qp_to_binary qp block at ≡ some (n, block'))
        × (n ≤ at + length qp)
        × (length block' ≡ length block))
      ⊎ ((qp_to_binary qp block at ≡ none)
          × (front : List ℕ) × (digit : ℕ) × (qp ≡ front ++ b'=' ∷ digit ∷ []))
unfolding qp_to_binary
qp_to_binary_cases qp block at room =
    let start = set block 0 0 in
    let len = length-set block 0 0 in
    let first = poke_inside 0 0 block (omega (arith, room)) in
    elim (decode_rounds-IsRun (length qp + 1) qp start at (omega arith)
      (omega (arith, room, len))) [
        | inr (h, cut) ↦ inr (rw (first, h, qp_to_binary), cut.front, cut.digit, cut.split)
        | inl (n, b, h, bound, same) ↦ inl (
          n,
          set b n 0,
          rw (first, qp_to_binary, h, poke_inside n 0 b (omega (arith, bound, same, len, room))),
          bound,
          length-set b n 0 ∙ same ∙ len,
        )
      ]
