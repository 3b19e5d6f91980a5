-- ===== src/QuotedPrintable/RoundTrip.antt =====
-- Quoted-printable text of one line is decoded as what was encoded (modules/binary/base64.c).
use mathlib.Core.List.{append_assoc, append-nil}
use gpsee.Base.{
  ℕ, zero, suc, ◌+◌, ◌/◌, ◌<◌, ◌≤◌, ◌≡◌, ◌≢◌, refl, ap, ◌∙◌, ◌⊎◌, inr, Bool, true, false, List, [],
  ◌∷◌, ◌++◌, Option, some, arith, leb, if◌then◌else◌, length, get_or, drop, length-append,
}
use gpsee.Util.{poke, size_sub}
use gpsee.Util.Copy.{poke_behind}
use gpsee.QuotedPrintable.{
  is_blank, all_blank, Decoded, qp_decode_byte, decode_rounds, qp_to_binary, qp_encode_byte, Buffer,
  append, make_room, break_line, encode_rounds, binary_to_qp_alloc,
}
use gpsee.QuotedPrintable.Bytes.{Written, qp_encode_byte-Written}

-- Bytes without line breaks, of which the last is not blank.
pub data IsPlain : List ℕ → Type 0 where
  nil : IsPlain []
  last : {c : ℕ} → c < 256 → is_blank c ≡ false → IsPlain (c ∷ [])
  cons :
      {c d : ℕ} {s : List ℕ}
      → c < 256
      → c ≢ b'\n'
      → c ≢ b'\r'
      → IsPlain (d ∷ s)
      → IsPlain (c ∷ d ∷ s)

module _ (force : Option (List ℕ)) (beyond : ℕ) where
  -- The text of each byte, one behind the other.
  unfoldable pub encoded : List ℕ → List ℕ
  encoded [] = []
  encoded (c ∷ s) = qp_encode_byte force c (get_or s 0 beyond) ++ encoded s

  head-Written :
      {c : ℕ} {s : List ℕ}
      → IsPlain (c ∷ s)
      → Written force c (get_or s 0 beyond) (qp_encode_byte force c (get_or s 0 beyond))
  head-Written {c} {s} (last byte black) =
      qp_encode_byte-Written force c (get_or s 0 beyond) byte (ground arith) (ground arith)
  head-Written {c} {s} (cons byte lf cr p) =
      qp_encode_byte-Written force c (get_or s 0 beyond) byte lf cr

  not_blank-append : (p : ℕ) (s t : List ℕ) → all_blank t ≡ false → all_blank (s ++ t) ≡ false
  unfolding all_blank
  not_blank-append p [] t h = h
  not_blank-append p (x ∷ s) t h = ground (arith, not_blank-append p s t h)

  -- The text of plain bytes is not blank.
  encoded_black : (c : ℕ) (s : List ℕ) → IsPlain (c ∷ s) → all_blank (encoded (c ∷ s)) ≡ false
  unfolding encoded all_blank
  encoded_black c [] (last byte black) =
      let w = head-Written (last byte black) in rw w.split (ground (arith, w.black black))
  encoded_black c (d ∷ s) (cons byte lf cr p) =
      not_blank-append c (qp_encode_byte force c (get_or (d ∷ s) 0 beyond)) (encoded (d ∷ s))
        (encoded_black d s p)

  rest_black :
      {c : ℕ} {s : List ℕ} → IsPlain (c ∷ s) → is_blank c ≡ true → all_blank (encoded s) ≡ false
  rest_black {c} {s} (last byte black) h = ground (arith, black, h)
  rest_black (cons {c} {d} {s} byte lf cr p) h = encoded_black d s p

  tail-IsPlain : {c : ℕ} {s : List ℕ} → IsPlain (c ∷ s) → IsPlain s
  tail-IsPlain (last byte black) = nil
  tail-IsPlain (cons byte lf cr p) = p

  decode_step :
      (fuel p c r : ℕ) (t s pre rest : List ℕ)
      → qp_decode_byte p t ≡ record { byte = some c; rest = some s }
      → decode_rounds (suc fuel) (p ∷ t) (length pre) (pre ++ r ∷ rest)
        ≡ decode_rounds fuel s (length (pre ++ c ∷ [])) ((pre ++ c ∷ []) ++ rest)
  unfolding decode_rounds
  decode_step fuel p c r t s pre rest d =
      let e : length (pre ++ c ∷ []) ≡ length pre + 1 = omega (arith, length-append pre (c ∷ [])) in
      rw (
        ap Decoded.rest d,
        decode_rounds,
        ap Decoded.byte d,
        poke_behind pre rest r c,
        e,
        append_assoc pre (c ∷ []) rest,
      )

  decode_rounds-encoded :
      (xs : List ℕ) (fuel : ℕ) (pre rest : List ℕ)
      → IsPlain xs
      → length (encoded xs) < fuel
      → length xs ≤ length rest
      → decode_rounds fuel (encoded xs) (length pre) (pre ++ rest)
        ≡ some (length pre + length xs, pre ++ (xs ++ drop (length xs) rest))
  unfolding encoded decode_rounds
  decode_rounds-encoded xs zero pre rest p h room = absurd (omega arith)
  decode_rounds-encoded [] (suc fuel) pre rest p h room =
      let e : length pre + 0 ≡ length pre = omega arith in rw e
  decode_rounds-encoded (c ∷ s) (suc fuel) pre [] p h room = absurd (omega arith)
  decode_rounds-encoded (c ∷ s) (suc fuel) pre (r ∷ rest) p h room =
      let w = head-Written p in
      let long = length-append w.tail (encoded s) in
      let short : length (encoded s) < fuel = ground (arith, w.split, h, long) in
      rw
        (
          w.split,
          decode_step fuel w.head c r (w.tail ++ encoded s) (encoded s) pre rest
              (w.decoded (encoded s) (rest_black p)),
          decode_rounds-encoded s fuel (pre ++ c ∷ []) rest (tail-IsPlain p) short
              (omega (arith, room)),
          append_assoc pre (c ∷ []) (s ++ drop (length s) rest),
        )
        (ap (λ (n : ℕ). some (n, pre ++ c ∷ (s ++ drop (length s) rest)))
          (omega (arith, length-append pre (c ∷ []))))

  module _ (grants : ℕ → Bool) (granted : (n : ℕ) → grants n ≡ true) where
    abbrev holding : List ℕ → ℕ → Buffer
    holding text alloc = record { text = text; alloc = alloc; last_cr = 0 }

    -- A round in a line that is not full writes the byte's text, and there is room for more.
    encode_round :
        (c : ℕ) (s text : List ℕ) (alloc : ℕ)
        → Written force c (get_or s 0 beyond) (qp_encode_byte force c (get_or s 0 beyond))
        → length text ≤ alloc
        → length text < 75
        → (n : ℕ) × (encode_rounds grants force beyond (c ∷ s) (holding text alloc)
            ≡ encode_rounds grants force beyond s
                (holding (text ++ qp_encode_byte force c (get_or s 0 beyond)) n))
          × (length (text ++ qp_encode_byte force c (get_or s 0 beyond)) < n)
    unfolding encode_rounds make_room break_line append size_sub
    encode_round c s text alloc w fits short =
        let n : ℕ = if leb alloc (length text + 8) then alloc + 256 else alloc in
        let long = length-append text (w.head ∷ w.tail) in
        let room : length (text ++ (w.head ∷ w.tail)) < n = ground (arith, w.short, long) in
        (n, rw w.split (ground (arith, granted (alloc + 256), w.line, w.short)), rw w.split room)

    -- A line that stays shorter than 76 bytes is not broken.
    encode_rounds-encoded :
        (xs text : List ℕ) (alloc : ℕ)
        → IsPlain xs
        → length text ≤ alloc
        → length text + length (encoded xs) ≤ 75
        → (n : ℕ) × (encode_rounds grants force beyond xs (holding text alloc)
            ≡ some (some (holding (text ++ encoded xs) n)))
          × ((xs ≢ []) ⊎ (length text < alloc) → length (text ++ encoded xs) < n)
    unfolding encode_rounds encoded
    encode_rounds-encoded [] text alloc p fits short =
        (alloc, rw (append-nil text), λ more. rw (append-nil text) (ground (arith, more)))
    encode_rounds-encoded (c ∷ s) text alloc p fits short =
        let piece = qp_encode_byte force c (get_or s 0 beyond) in
        let w = head-Written p in
        let long = length-append piece (encoded s) in
        let not_full : length text < 75 = ground (arith, w.split, long) in
        let (n, step, room) = encode_round c s text alloc w fits not_full in
        let (m, done, more) =
          encode_rounds-encoded s (text ++ piece) n (tail-IsPlain p) (omega (arith, room))
            (omega (arith, length-append text piece, long, short)) in
        (
          m,
          step ∙ rw (append_assoc text piece (encoded s)) at done,
          λ h. rw (append_assoc text piece (encoded s)) at (more (inr room)),
        )

    binary_to_qp_alloc-encoded :
        (xs : List ℕ)
        → IsPlain xs
        → length (encoded xs) ≤ 75
        → binary_to_qp_alloc grants force beyond xs ≡ some (some (encoded xs))
    unfolding binary_to_qp_alloc append encoded
    binary_to_qp_alloc-encoded [] p short = refl
    binary_to_qp_alloc-encoded (c ∷ s) p short =
        let start = length (c ∷ s) + length (c ∷ s) / 10 in
        let (n, done, room) =
          encode_rounds-encoded (c ∷ s) [] start p (omega arith) (omega (arith, short)) in
        let fits : length (encoded (c ∷ s)) < n = room (inr (omega arith)) in
        ground (arith, granted start, done, fits)

drop_lt : (n : ℕ) (s : List ℕ) → n < length s → (y : ℕ) × (drop n s ≡ y ∷ drop (suc n) s)
drop_lt n [] h = absurd (omega arith)
drop_lt zero (x ∷ s) h = (x, refl)
drop_lt (suc n) (x ∷ s) h = drop_lt n s (omega arith)

module _ (force : Option (List ℕ)) (beyond : ℕ) where
  qp_to_binary-encoded :
      (xs block : List ℕ)
      → IsPlain xs
      → length xs < length block
      → qp_to_binary (encoded force beyond xs) block 0
        ≡ some (length xs, xs ++ 0 ∷ drop (suc (length xs)) block)
  unfolding qp_to_binary poke
  qp_to_binary-encoded xs [] p room = absurd (omega arith)
  qp_to_binary-encoded xs (b ∷ block) p room =
      let text = encoded force beyond xs in
      let done =
        decode_rounds-encoded force beyond xs (length text + 1) [] (0 ∷ block) p (omega arith)
          (omega (arith, room)) in
      let (y, e) = drop_lt (length xs) (0 ∷ block) room in
      ground (arith, done, e, poke_behind xs (drop (length xs) block) y 0)

  -- What the encoder writes for plain bytes, whatever is forced and whatever stands behind the input,
  -- is decoded as these bytes with a NUL behind them, if the text has 75 bytes at most, memory is
  -- granted, and the output block is longer than the input.
  pub qp_to_binary-binary_to_qp_alloc :
      (grants : ℕ → Bool) (xs block : List ℕ)
      → ((n : ℕ) → grants n ≡ true)
      → IsPlain xs
      → length (encoded force beyond xs) ≤ 75
      → length xs < length block
      → (text : List ℕ) × (binary_to_qp_alloc grants force beyond xs ≡ some (some text))
        × (qp_to_binary text block 0 ≡ some (length xs, xs ++ 0 ∷ drop (suc (length xs)) block))
  qp_to_binary-binary_to_qp_alloc grants xs block granted p short room = (
    encoded force beyond xs,
    binary_to_qp_alloc-encoded force beyond grants granted xs p short,
    qp_to_binary-encoded xs block p room,
  )
