-- ===== src/Php/Strings.antt =====
-- The functions of the C library that modules/cgi/phpsess.c calls on the mapped file, in a build for
-- 64-bit Linux. A read past the end of the mapping is `none`.
use gpsee.Base.{
  ℕ, zero, suc, ◌+◌, ◌-◌, ◌*◌, Bool, true, false, not, ◌&&◌, ◌||◌, List, [], ◌∷◌, Option, none,
  some, leb, ◌==◌, if◌then◌else◌, get_elem?,
}
use gpsee.Util.{◌>>=◌}

-- One further in the text, unless the search met the NUL or the end.
abbrev pub behind : Option (Option ℕ) → Option (Option ℕ)
behind none = none
behind (some none) = some none
behind (some (some k)) = some (some (suc k))

-- As an offset; `some none` is NULL.
unfoldable pub strchr : ℕ → List ℕ → Option (Option ℕ)
strchr c [] = none
strchr c (x ∷ s) =
    let rest = strchr c s in
    if x == c then some (some 0) else (if x == 0 then some none else behind rest)

abbrev pub is_digit : ℕ → Bool
is_digit c = leb b'0' c && leb c b'9'

unfoldable pub digits_from : ℕ → List ℕ → Option ℕ
digits_from value [] = none
digits_from value (c ∷ s) =
    let rest = digits_from (value * 10 + (c - b'0')) s in if is_digit c then rest else some value

-- `isspace` in the C locale.
abbrev is_space : ℕ → Bool
is_space c = (c == b' ') || (leb 9 c && leb c 13)

unfoldable pub skip_space : List ℕ → List ℕ
skip_space [] = []
skip_space (c ∷ s) = let rest = skip_space s in if is_space c then rest else c ∷ s

-- The sign and the magnitude of an `int`; the behaviour is undefined, and `none` here, where the
-- number does not fit.
unfoldable pub signed : Bool → ℕ → Option (Bool × ℕ)
signed negative n =
    if leb n (if negative then 2147483648 else 2147483647)
    then some (negative && not (n == 0), n)
    else none

unfoldable pub atoi_sign : List ℕ → Option (Bool × ℕ)
unfolding digits_from signed
atoi_sign [] = none
atoi_sign (c ∷ s) =
    if c == b'-'
    then (digits_from 0 s >>= λ n. signed true n)
    else (if c == b'+'
        then (digits_from 0 s >>= λ n. signed false n)
        else (digits_from 0 (c ∷ s) >>= λ n. signed false n))

abbrev pub atoi : List ℕ → Option (Bool × ℕ)
atoi s = atoi_sign (skip_space s)

-- `strncpy` of so many bytes and a NUL behind them: the string that then stands in the block.
unfoldable pub strncpy : ℕ → List ℕ → Option (List ℕ)
strncpy zero s = some []
strncpy (suc n) [] = none
strncpy (suc n) (c ∷ s) = if c == 0 then some [] else (strncpy n s >>= λ text. some (c ∷ text))

-- `strncmp(s, text, 2) == 0` for a text of two bytes.
unfoldable pub starts_with : ℕ → ℕ → List ℕ → Option Bool
starts_with a b s = do
  first ← get_elem? s 0
  if first == a then (get_elem? s 1 >>= λ second. some (second == b)) else some false
