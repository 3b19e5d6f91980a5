-- ===== src/Base64/Written.antt =====
-- The whole of `binary_to_b64` of modules/binary/base64.c.
use gpsee.Base.{
  ℕ, ◌+◌, ◌-◌, ◌*◌, ◌/◌, ◌%◌, ◌<◌, ◌≤◌, ◌≡◌, inl, inr, refl, List, [], ◌∷◌, ◌++◌, Option, none,
  Bool-cases, leb, true, some, arith, ◌==◌, if◌then◌else◌, length, drop, length-append, length-drop,
  drop-drop, set, ◌∙◌, ap, sym,
}
use mathlib.Core.List.{append_assoc}
use gpsee.Base64.{
  letter, encode_3bytes, Encoder, encode_loop, finish, int_max, binary_to_b64, store, ◌>>=◌,
}
use gpsee.Base64.Text.{AllBytes, nil, cons, quartets, length-quartets, encode_3bytes_lem}
use gpsee.Base64.Encode.{
  pending, finish_full, finish_one, finish_two, group_one, group_two, encode_loop-flush,
  encode_loop-end, keep_first, keep_second, keep_third,
}

-- The number that is returned for an input of `n` bytes.
abbrev pub returned : ℕ → ℕ
returned n = if n % 3 == 0 then n / 3 * 4 - 4 else n / 3 * 4 + n % 3 + 1

-- The buffer after a text of some length has been written from its start, with the NUL behind it.
abbrev pub filled : List ℕ → List ℕ → List ℕ
filled text out = text ++ 0 ∷ drop (length text + 1) out

-- A result behind `pre` and a group, as a result behind `pre`.
regroup :
    (pre group tail : List ℕ) (n m : ℕ)
    → length group + n ≡ m
    → ◌≡◌ {A = Option (ℕ × Option (List ℕ))}
        (some (length (pre ++ group) + n, some ((pre ++ group) ++ tail)))
        (some (length pre + m, some (pre ++ (group ++ tail))))
regroup pre group tail n m e = ground (arith, length-append pre group, append_assoc pre group tail)

regroup_filled :
    (pre group text rest : List ℕ) (n m : ℕ)
    → length group ≡ 4
    → 4 + n ≡ m
    → ◌≡◌ {A = Option (ℕ × Option (List ℕ))}
        (some (length (pre ++ group) + n, some ((pre ++ group) ++ filled text (drop 4 rest))))
        (some (length pre + m, some (pre ++ filled (group ++ text) rest)))
regroup_filled pre group text rest n m four e =
    let tail = 0 ∷ drop (length text + 1) (drop 4 rest) in
    let far : 4 + (length text + 1) ≡ length (group ++ text) + 1 =
      omega (arith, length-append group text) in
    regroup pre group (text ++ tail) n m (omega arith)
    ∙ ap (λ (t : List ℕ). some (length pre + m, some (pre ++ t)))
        (sym (append_assoc group text tail)
          ∙ ap (λ (t : List ℕ). (group ++ text) ++ 0 ∷ t)
              (drop-drop (length text + 1) 4 rest ∙ ap (λ (k : ℕ). drop k rest) far))

module _ (pre rest : List ℕ) (q₀ q₁ q₂ q₃ a b c i : ℕ)
    (enc : encode_3bytes a (some b) (some c) ≡ q₀ ∷ q₁ ∷ q₂ ∷ q₃ ∷ []) (full : i % 3 ≡ 0)
    (pos : 0 < i) where
  abbrev quartet : List ℕ
  quartet = q₀ ∷ q₁ ∷ q₂ ∷ q₃ ∷ []

  after_one :
      (x : ℕ)
      → x < 256
      → 9 ≤ length rest
      → (encode_loop (x ∷ []) (pending pre rest a b c i) >>= finish)
        ≡ some (length pre + 6, some (pre ++ filled (quartet ++ quartets (x ∷ [])) rest))
  unfolding encode_loop quartets
  after_one x hx room =
      ap (λ e. e >>= finish)
        (encode_loop-flush x [] pre rest q₀ q₁ q₂ q₃ a b c i (omega arith) enc full pos)
      ∙ finish_one (pre ++ quartet) (drop 4 rest) (letter (x / 4)) (letter (x % 4 * 16)) (letter 0)
          (letter 0) x b c (i + 1) (omega (arith, length-drop 4 rest)) (group_one x hx)
          (omega arith)
      ∙ rw (drop-drop 5 4 rest) (regroup pre quartet _ 2 6 refl)

  after_two :
      (x y : ℕ)
      → x < 256
      → y < 256
      → 9 ≤ length rest
      → (encode_loop (x ∷ y ∷ []) (pending pre rest a b c i) >>= finish)
        ≡ some (length pre + 7, some (pre ++ filled (quartet ++ quartets (x ∷ y ∷ [])) rest))
  unfolding encode_loop quartets
  after_two x y hx hy room =
      let reads =
        encode_loop-flush x (y ∷ []) pre rest q₀ q₁ q₂ q₃ a b c i (omega arith) enc full pos
        ∙ keep_second y [] (pre ++ quartet) (drop 4 rest) x b c (i + 1) (omega arith)
        ∙ encode_loop-end (pending (pre ++ quartet) (drop 4 rest) x y c (i + 1 + 1)) in
      ap (λ e. e >>= finish) reads
      ∙ finish_two (pre ++ quartet) (drop 4 rest) (letter (x / 4)) (letter (x % 4 * 16 + y / 16))
          (letter (y % 16 * 4)) (letter 0) x y c (i + 1 + 1) (omega (arith, length-drop 4 rest))
          (group_two x y hx hy) (omega arith)
      ∙ rw (drop-drop 5 4 rest) (regroup pre quartet _ 3 7 refl)

  -- Three bytes more leave a whole group pending again.
  after_three :
      (x y z : ℕ) (r : List ℕ)
      → 4 ≤ length rest
      → encode_loop (x ∷ y ∷ z ∷ r) (pending pre rest a b c i)
        ≡ encode_loop r (pending (pre ++ quartet) (drop 4 rest) x y z (i + 1 + 1 + 1))
  after_three x y z r room =
      encode_loop-flush x (y ∷ z ∷ r) pre rest q₀ q₁ q₂ q₃ a b c i room enc full pos
      ∙ keep_second y (z ∷ r) (pre ++ quartet) (drop 4 rest) x b c (i + 1) (omega arith)
      ∙ keep_third z r (pre ++ quartet) (drop 4 rest) x y c (i + 1 + 1) (omega arith)

encode_rest :
    (xs pre rest : List ℕ) (a b c i : ℕ)
    → AllBytes (a ∷ b ∷ c ∷ xs)
    → i % 3 ≡ 0
    → 0 < i
    → length (quartets (a ∷ b ∷ c ∷ xs)) + 1 ≤ length rest
    → (encode_loop xs (pending pre rest a b c i) >>= finish)
      ≡ some (
        length pre + returned (length xs + 3),
        some (pre ++ filled (quartets (a ∷ b ∷ c ∷ xs)) rest),
      )
unfolding quartets
encode_rest [] pre rest a b c i (cons ha (cons hb (cons hc nil))) full pos room =
    ap (λ e. e >>= finish) (encode_loop-end (pending pre rest a b c i))
    ∙ finish_full pre rest (letter (a / 4)) (letter (a % 4 * 16 + b / 16))
        (letter (b % 16 * 4 + c / 64)) (letter (c % 64)) a b c i room
        (encode_3bytes_lem a b c ha hb hc) full
    ∙ ground arith
encode_rest (x ∷ []) pre rest a b c i (cons ha (cons hb (cons hc (cons hx nil)))) full pos room =
    after_one pre rest _ _ _ _ a b c i (encode_3bytes_lem a b c ha hb hc) full pos x hx room
encode_rest (x ∷ y ∷ []) pre rest a b c i (cons ha (cons hb (cons hc (cons hx (cons hy nil))))) full
      pos room =
    after_two pre rest _ _ _ _ a b c i (encode_3bytes_lem a b c ha hb hc) full pos x y hx hy room
encode_rest (x ∷ y ∷ z ∷ r) pre rest a b c i (cons ha (cons hb (cons hc bytes))) full pos room =
    let enc = encode_3bytes_lem a b c ha hb hc in
    let group : List ℕ =
      letter (a / 4)
      ∷ letter (a % 4 * 16 + b / 16)
      ∷ letter (b % 16 * 4 + c / 64)
      ∷ letter (c % 64)
      ∷ [] in
    ap (λ e. e >>= finish) (after_three pre rest _ _ _ _ a b c i enc full pos x y z r (omega arith))
    ∙ encode_rest r (pre ++ group) (drop 4 rest) x y z (i + 1 + 1 + 1) bytes (omega arith)
        (omega arith) (omega (arith, length-drop 4 rest))
    ∙ regroup_filled pre group (quartets (x ∷ y ∷ z ∷ r)) rest _ _ refl (ground arith)

-- The loop and what stands below it, on some input of bytes.
encode-quartets :
    (xs out : List ℕ) (j₀ j₁ j₂ : ℕ)
    → AllBytes xs
    → 0 < length xs
    → (length xs + 2) / 3 * 4 + 1 ≤ length out
    → (encode_loop xs (record { i = 0; c = j₀ ∷ j₁ ∷ j₂ ∷ []; out_len = 0; out = some out })
        >>= finish)
      ≡ some (returned (length xs), some (filled (quartets xs) out))
unfolding quartets
encode-quartets [] out j₀ j₁ j₂ bytes some_input room = absurd (omega arith)
encode-quartets (x ∷ []) out j₀ j₁ j₂ (cons hx nil) some_input room =
    ap (λ e. e >>= finish)
      (keep_first x [] [] out j₀ j₁ j₂ 0 refl ∙ encode_loop-end (pending [] out x j₁ j₂ 1))
    ∙ finish_one [] out (letter (x / 4)) (letter (x % 4 * 16)) (letter 0) (letter 0) x j₁ j₂ 1 room
        (group_one x hx) refl
encode-quartets (x ∷ y ∷ []) out j₀ j₁ j₂ (cons hx (cons hy nil)) some_input room =
    ap (λ e. e >>= finish)
      (keep_first x (y ∷ []) [] out j₀ j₁ j₂ 0 refl
        ∙ keep_second y [] [] out x j₁ j₂ 1 refl
        ∙ encode_loop-end (pending [] out x y j₂ 2))
    ∙ finish_two [] out (letter (x / 4)) (letter (x % 4 * 16 + y / 16)) (letter (y % 16 * 4))
        (letter 0) x y j₂ 2 room (group_two x y hx hy) refl
encode-quartets (x ∷ y ∷ z ∷ r) out j₀ j₁ j₂ bytes some_input room =
    ap (λ e. e >>= finish)
      (keep_first x (y ∷ z ∷ r) [] out j₀ j₁ j₂ 0 refl
        ∙ keep_second y (z ∷ r) [] out x j₁ j₂ 1 refl
        ∙ keep_third z r [] out x y j₂ 2 refl)
    ∙ encode_rest r [] out x y z 3 bytes refl (omega arith)
        (omega (arith, length-quartets (x ∷ y ∷ z ∷ r)))
    ∙ ground arith

-- `binary_to_b64`, called with some input of bytes, not more than an `int` counts, and a buffer of at
-- least (((inLen) + 2) / 3) * 4 + 1 bytes, writes the base-64 text of the input and a NUL, touches
-- nothing behind, and returns `returned` of the input's length, whatever its array held before.
pub binary_to_b64-quartets :
    (xs out : List ℕ) (j₀ j₁ j₂ : ℕ)
    → AllBytes xs
    → 0 < length xs
    → length xs ≤ int_max
    → (length xs + 2) / 3 * 4 + 1 ≤ length out
    → binary_to_b64 (j₀ ∷ j₁ ∷ j₂ ∷ []) xs (some out)
      ≡ some (returned (length xs), some (filled (quartets xs) out))
unfolding binary_to_b64
binary_to_b64-quartets xs out j₀ j₁ j₂ bytes some_input short room =
    let counted : leb (length xs) int_max ≡ true = ground (arith, short) in
    rw (binary_to_b64, counted) (encode-quartets xs out j₀ j₁ j₂ bytes some_input room)

encode_loop-null :
    (xs : List ℕ) (e : Encoder)
    → e.out ≡ none
    → (e' : Encoder) × (encode_loop xs e ≡ some e') × (e'.out ≡ none)
unfolding encode_loop
encode_loop-null [] e null = (e, refl, null)
encode_loop-null (x ∷ xs) e null =
    let kept : Encoder = record e { c = set e.c (e.i % 3) x; i = e.i + 1 } in
    let written : Encoder = record e {
      c = set e.c (e.i % 3) x;
      i = e.i + 1;
      out_len = e.out_len + 4;
    } in
    let (a, run_a, null_a) = encode_loop-null xs kept null in
    let (b, run_b, null_b) = encode_loop-null xs written null in
    elim (Bool-cases (e.i == 0)) [
      | inl z ↦ (a, rw (z, encode_loop) run_a, null_a)
      | inr p ↦ elim (Bool-cases (e.i % 3 == 0)) [
        | inl f ↦ (b, ground (arith, run_b), null_b)
        | inr g ↦ (a, ground (arith, run_a), null_a)
      ]
    ]

finish-null : (e : Encoder) → e.out ≡ none → finish e ≡ none
unfolding finish store
finish-null e null = ground arith

-- With NULL for a buffer `binary_to_b64` writes through NULL, whatever the input is.
pub binary_to_b64-null : (junk xs : List ℕ) → binary_to_b64 junk xs none ≡ none
unfolding binary_to_b64 finish
binary_to_b64-null junk xs =
    let start : Encoder = record { i = 0; c = junk; out_len = 0; out = none } in
    let (e, run, null) = encode_loop-null xs start refl in
    elim (Bool-cases (leb (length xs) int_max)) [
      | inl h ↦ rw (binary_to_b64, h, run) (finish-null e null)
      | inr h ↦ rw (binary_to_b64, h) refl
    ]
