-- ===== src/Log/Block.antt =====
-- What `gpsee_makeLogFormat` (gpsee_unix.c) writes into a block, and the strings that it leaves there.
use mathlib.Core.List.{append-nil, append_assoc}
use gpsee.Base.{
  ℕ, zero, suc, ◌+◌, ◌-◌, ◌≤◌, ◌<◌, ◌≡◌, refl, sym, ap, ◌∙◌, inl, inr, true, List, [], ◌∷◌, ◌++◌,
  none, some, arith, ltb, leb, if◌then◌else◌, Bool-cases, length, take, drop, replicate,
  length-append, drop-append, take_past, length-take, drop_past,
}
use gpsee.Util.{string_end}
use gpsee.Util.Copy.{IsText, nil, cons, string_end_lem}
use gpsee.Util.Path.{take-length}
use gpsee.Log.{max_size, padded, write_at}

-- A write behind a text, over the bytes that follow it and no others.
write_at-append :
    (s over bytes : List ℕ)
    → length bytes ≤ length over
    → write_at (length s) bytes (s ++ over) ≡ some (s ++ bytes ++ drop (length bytes) over)
unfolding write_at
write_at-append s over bytes le =
    let room : leb (length s + length bytes) (length (s ++ over)) ≡ true =
      ground (arith, length-append s over, le) in
    rw (write_at, room, take-length s over, drop-append s over (length bytes)) refl

write_at_past :
    (at : ℕ) (bytes block : List ℕ)
    → length block < at + length bytes
    → write_at at bytes block ≡ none
unfolding write_at
write_at_past at bytes block lt = ground (arith, lt)

pub string_end-none : (s : List ℕ) → IsText s → string_end s ≡ none
unfolding string_end
string_end-none [] nil = refl
string_end-none (c ∷ s) (cons ne t) = ground (arith, string_end-none s t, ne)

pub IsText-append : {s t : List ℕ} → IsText s → IsText t → IsText (s ++ t)
IsText-append nil u = u
IsText-append (cons ne t) u = cons ne (IsText-append t u)

pub IsText-take : (n : ℕ) {s : List ℕ} → IsText s → IsText (take n s)
IsText-take zero t = nil
IsText-take (suc n) nil = nil
IsText-take (suc n) (cons ne t) = cons ne (IsText-take n t)

-- The buffer that holds a text, filled up with NULs.
abbrev pub filled : List ℕ → List ℕ
filled text = text ++ replicate (max_size - length text) 0

abbrev zeros : ℕ → List ℕ
zeros n = replicate n 0

length-zeros : (n : ℕ) → length (zeros n) ≡ n
length-zeros zero = refl
length-zeros (suc n) = ap suc (length-zeros n)

drop-zeros : (k n : ℕ) → drop k (zeros n) ≡ zeros (n - k)
drop-zeros zero n = let e : n ≡ n - 0 = omega arith in ap zeros e
drop-zeros (suc k) zero = let e : 0 ≡ 0 - suc k = omega arith in ap zeros e
drop-zeros (suc k) (suc n) =
    let e : n - k ≡ suc n - suc k = omega arith in drop-zeros k n ∙ ap zeros e

length-filled : (text : List ℕ) → length text ≤ max_size → length (filled text) ≡ max_size
length-filled text le = omega (
  arith,
  length-append text (zeros (max_size - length text)),
  length-zeros (max_size - length text),
  le,
)

-- A string and its NUL, put behind the front of a filled buffer.
filled-append :
    (front rest : List ℕ)
    → length front + length rest < max_size
    → front ++ (rest ++ 0 ∷ []) ++ drop (length (rest ++ 0 ∷ [])) (zeros (max_size - length front))
      ≡ filled (front ++ rest)
filled-append front rest lt =
    let n = max_size - length front in
    let left = n - length (rest ++ 0 ∷ []) in
    let more : suc left ≡ max_size - length (front ++ rest) =
      omega (arith, lt, length-append front rest, length-append rest (0 ∷ [])) in
    ap (λ t. front ++ (rest ++ 0 ∷ []) ++ t) (drop-zeros (length (rest ++ 0 ∷ [])) n)
    ∙ ap (λ t. t ++ replicate left 0) (sym (append_assoc front rest (0 ∷ [])))
    ∙ append_assoc (front ++ rest) (0 ∷ []) (replicate left 0)
    ∙ ap (λ m. front ++ rest ++ replicate m 0) more

-- The rest is added behind the front, where this leaves a NUL.
pub rest_behind :
    (front rest : List ℕ)
    → length front < max_size
    → write_at (length front) (take (max_size - length front) rest ++ 0 ∷ []) (filled front)
      ≡ (if ltb (length front + length rest) max_size then some (filled (front ++ rest)) else none)
rest_behind front rest lt = elim (Bool-cases (ltb (length front + length rest) max_size)) [
  | inl h ↦
      let fits : length front + length rest < max_size = ground (arith, h) in
      let room : length (rest ++ 0 ∷ []) ≤ length (zeros (max_size - length front)) =
        omega (arith, fits, length-append rest (0 ∷ []), length-zeros (max_size - length front)) in
      rw (h, take_past (max_size - length front) rest (omega (arith, fits)))
        (write_at-append front (zeros (max_size - length front)) (rest ++ 0 ∷ []) room
          ∙ ap some (filled-append front rest fits))
  | inr h ↦
      let n = max_size - length front in
      let long : n ≤ length rest = ground (arith, h) in
      rw h (
        write_at_past (length front) (take n rest ++ 0 ∷ []) (filled front) (
          omega (
            arith,
            length-filled front (omega (arith, lt)),
            length-take n rest long,
            length-append (take n rest) (0 ∷ []),
            lt,
          )))
]

pub string_end-filled :
    (text : List ℕ)
    → IsText text
    → length text < max_size
    → string_end (filled text) ≡ some (length text)
string_end-filled text t lt =
    let m = max_size - length text - 1 in
    let e : max_size - length text ≡ suc m = omega (arith, lt) in
    ap (λ k. string_end (text ++ zeros k)) e ∙ string_end_lem text (zeros m) t

-- `strncpy` of n bytes writes as many.
length-padded : (n : ℕ) (message : List ℕ) → length (padded n message) ≡ n
length-padded n message = elim (Bool-cases (ltb n (length message))) [
  | inl h ↦
      let lt : n < length message = ground (arith, h) in
      omega (
        arith,
        length-append (take n message) (zeros (n - length message)),
        length-take n message (omega (arith, lt)),
        length-zeros (n - length message),
      )
  | inr h ↦
      let le : length message ≤ n = ground (arith, h) in
      rw (take_past n message le) (
        omega (
          arith,
          length-append message (zeros (n - length message)),
          length-zeros (n - length message),
        ))
]

-- The message behind the front of a whole buffer.
pub write_at-padded :
    (front message block : List ℕ)
    → length (front ++ block) ≡ max_size
    → write_at (length front) (padded (max_size - length front) message) (front ++ block)
      ≡ some (front ++ padded (max_size - length front) message)
write_at-padded front message block len =
    let n = max_size - length front in
    let same : length block ≡ n = omega (arith, length-append front block, len) in
    let written = length-padded n message in
    let gone : drop (length (padded n message)) block ≡ [] =
      drop_past (length (padded n message)) block (omega (arith, same, written)) in
    write_at-append front block (padded n message) (omega (arith, same, written))
    ∙ ap (λ t. some (front ++ padded n message ++ t)) gone
    ∙ ap some (append-nil (front ++ padded n message))

pub padded_fits :
    (front message : List ℕ)
    → length front + length message < max_size
    → front ++ padded (max_size - length front) message ≡ filled (front ++ message)
padded_fits front message lt =
    let n = max_size - length front in
    let e : n - length message ≡ max_size - length (front ++ message) =
      omega (arith, length-append front message) in
    ap (λ t. front ++ (t ++ zeros (n - length message))) (take_past n message (omega (arith, lt)))
    ∙ sym (append_assoc front message (zeros (n - length message)))
    ∙ ap (λ m. front ++ message ++ zeros m) e

pub padded_past :
    (front message : List ℕ)
    → max_size ≤ length front + length message
    → padded (max_size - length front) message ≡ take (max_size - length front) message
padded_past front message le =
    let n = max_size - length front in
    let e : n - length message ≡ 0 = omega (arith, le) in
    ap (λ m. take n message ++ zeros m) e ∙ append-nil (take n message)

pub write_at-front :
    (front block : List ℕ)
    → length front ≤ length block
    → write_at 0 front block ≡ some (front ++ drop (length front) block)
unfolding write_at
write_at-front front block le =
    let e : 0 + length front ≡ length front = omega arith in
    let room : leb (length front) (length block) ≡ true = ground (arith, le) in
    rw (write_at, e, room) refl
