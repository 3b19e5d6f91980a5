-- ===== src/Php/Entries.antt =====
-- The variables of a session as PHP writes them, and the turn of the loop of `phpSession_load`
-- (modules/cgi/phpsess.c) at each.
use gpsee.Base.{
  drop_front, ℕ, ◌+◌, ◌-◌, ◌*◌, ◌≤◌, ◌≡◌, refl, ◌∙◌, Bool, true, false, List, [], ◌∷◌, ◌++◌, Option,
  none, some, arith, leb, ◌==◌, length,
}
use gpsee.Util.{◌>>=◌}
use gpsee.Util.Path.{Lacks, nil, cons, take-length}
use gpsee.Php.Strings.{
  is_digit, digits_from, skip_space, signed, atoi_sign, atoi, strncpy, starts_with,
}
use gpsee.Php.Search.{strchr-append}
use gpsee.Php.{
  integer, string, Value, php_string, php_integer, go, recover, named, settle, switch_text,
  at_colon, switch_length, switch_string, switch, sizeof_value, at_pipe, turn,
}

-- The digits, behind others that stand for the first number, make the second.
pub data IsNumeral : ℕ → List ℕ → ℕ → Type 0 where
  done : {n : ℕ} → IsNumeral n [] n
  digit :
      {before c n : ℕ} {digits : List ℕ}
      → is_digit c ≡ true
      → IsNumeral (before * 10 + (c - b'0')) digits n
      → IsNumeral before (c ∷ digits) n

-- A variable as PHP writes it: a string with its length in digits, the digits of an integer, a NULL.
pub data Entry : Type 0 where
  string_entry : List ℕ → List ℕ → List ℕ → Entry
  integer_entry : List ℕ → List ℕ → Entry
  null_entry : List ℕ → Entry

abbrev pub write : Entry → List ℕ → List ℕ
write (string_entry name digits text) rest =
    name ++ b'|' ∷ b's' ∷ b':' ∷ (digits ++ b':' ∷ b'"' ∷ (text ++ b'"' ∷ b';' ∷ rest))
write (integer_entry name digits) rest = name ++ b'|' ∷ b'i' ∷ b':' ∷ (digits ++ b';' ∷ rest)
write (null_entry name) rest = name ++ b'|' ∷ b'N' ∷ b';' ∷ rest

abbrev pub write_all : List Entry → List ℕ → List ℕ
write_all [] fill = fill
write_all (e ∷ entries) fill = write e (write_all entries fill)

abbrev pub IsName : List ℕ → Type 0
IsName name = Lacks b'|' name × Lacks 0 name

pub data IsEntry : Entry → Type 0 where
  string_fits :
      {name digits text : List ℕ}
      → IsName name
      → IsNumeral 0 digits (length text)
      → length text ≤ 2147483647
      → Lacks 0 text
      → IsEntry (string_entry name digits text)
  integer_fits :
      {name digits : List ℕ}
      → IsName name
      → Lacks b';' digits
      → Lacks 0 digits
      → IsEntry (integer_entry name digits)
  null_fits : {name : List ℕ} → IsName name → IsEntry (null_entry name)

-- What is kept of an entry.
abbrev pub kept_of : Entry → Option (List ℕ × Value)
kept_of (string_entry name digits text) =
    named name (record { type = php_string; datum = string text })
kept_of (integer_entry name digits) =
    named name (record { type = php_integer; datum = integer false 0 })
kept_of (null_entry name) = none

digits_from-IsNumeral :
    {before n : ℕ} {digits : List ℕ} (c : ℕ) (t : List ℕ)
    → is_digit c ≡ false
    → IsNumeral before digits n
    → digits_from before (digits ++ c ∷ t) ≡ some n
unfolding digits_from
digits_from-IsNumeral c t end done = rw end refl
digits_from-IsNumeral c t end (digit d h) = rw d (digits_from-IsNumeral c t end h)

IsNumeral-Lacks :
    {before n : ℕ} {digits : List ℕ} (c : ℕ)
    → is_digit c ≡ false
    → IsNumeral before digits n
    → Lacks c digits
IsNumeral-Lacks c end done = nil
IsNumeral-Lacks c end (digit d h) = cons (λ e. ground (arith, d, end, e)) (IsNumeral-Lacks c end h)

skip_space-digit : (c : ℕ) (s : List ℕ) → is_digit c ≡ true → skip_space (c ∷ s) ≡ c ∷ s
unfolding skip_space
skip_space-digit c s d = ground (arith, d)

atoi_sign-digit :
    (c n : ℕ) (s : List ℕ)
    → is_digit c ≡ true
    → digits_from 0 (c ∷ s) ≡ some n
    → n ≤ 2147483647
    → atoi_sign (c ∷ s) ≡ some (false, n)
unfolding atoi_sign signed
atoi_sign-digit c n s d read le =
    let minus : (c == b'-') ≡ false = ground (arith, d) in
    let plus : (c == b'+') ≡ false = ground (arith, d) in
    let fits : leb n 2147483647 ≡ true = ground (arith, le) in
    rw (atoi_sign, minus, plus, read, signed, fits) refl

atoi-IsNumeral :
    {n : ℕ} {digits : List ℕ} (t : List ℕ)
    → IsNumeral 0 digits n
    → n ≤ 2147483647
    → atoi (digits ++ b':' ∷ t) ≡ some (false, n)
unfolding atoi_sign skip_space signed
atoi-IsNumeral t done le = refl
atoi-IsNumeral t (digit {c = c} {digits = digits} d h) le =
    rw (skip_space-digit c (digits ++ b':' ∷ t) d) (
      atoi_sign-digit c _ (digits ++ b':' ∷ t) d
        (digits_from-IsNumeral {before = 0} b':' t refl (digit {c = c} d h)) le)

strncpy-length :
    (text rest : List ℕ) → Lacks 0 text → strncpy (length text) (text ++ rest) ≡ some text
unfolding strncpy
strncpy-length [] rest nil = refl
strncpy-length (x ∷ text) rest (cons ne l) = ground (arith, ne, strncpy-length text rest l)

module _ (grants : ℕ → Bool) (all : (n : ℕ) → grants n ≡ true) where
  turn-pipe :
      (name t : List ℕ) (type : ℕ)
      → IsName name
      → turn grants (name ++ b'|' ∷ type ∷ t) ≡ (
          switch grants type (name ++ b'|' ∷ type ∷ t) (b'|' ∷ type ∷ t) >>= λ out.
          settle name (b'|' ∷ type ∷ t) type out)
  unfolding turn at_pipe
  turn-pipe name t type (bar, nul) =
      rw
        (
          strchr-append b'|' name (type ∷ t) bar nul,
          drop_front,
          take-length,
          all (length name + 1),
          all sizeof_value,
        )
        refl

  switch_string-text :
      (s digits text rest : List ℕ)
      → IsNumeral 0 digits (length text)
      → length text ≤ 2147483647
      → Lacks 0 text
      → switch_string grants true s
          (b'|' ∷ b's' ∷ b':' ∷ (digits ++ b':' ∷ b'"' ∷ (text ++ b'"' ∷ b';' ∷ rest)))
        ≡ some (record { integrous = true; s = some (b';' ∷ rest); datum = string text })
  unfolding switch_string switch_length at_colon switch_text starts_with
  switch_string-text s digits text rest numeral le nul =
      let behind = b'"' ∷ (text ++ b'"' ∷ b';' ∷ rest) in
      rw
        (
          atoi-IsNumeral behind numeral le,
          strchr-append b':' digits behind (IsNumeral-Lacks b':' refl numeral)
              (IsNumeral-Lacks 0 refl numeral),
          drop_front digits (b':' ∷ behind),
          all (length text + 1),
          strncpy-length text (b'"' ∷ b';' ∷ rest) nul,
          drop_front text (b'"' ∷ b';' ∷ rest),
        )
        refl

  pub turn-write :
      (e : Entry) (rest : List ℕ)
      → IsEntry e
      → turn grants (write e rest) ≡ some (go rest (kept_of e))
  unfolding switch settle recover
  turn-write e rest (string_fits {name} {digits} {text} n numeral le nul) =
      turn-pipe name _ b's' n ∙ rw (switch_string-text _ digits text rest numeral le nul) refl
  turn-write e rest (integer_fits {name} {digits} n semi nul) =
      turn-pipe name _ b'i' n
      ∙ rw (strchr-append b';' digits rest semi nul, drop_front digits (b';' ∷ rest)) refl
  turn-write e rest (null_fits {name} n) = turn-pipe name _ b'N' n ∙ refl
