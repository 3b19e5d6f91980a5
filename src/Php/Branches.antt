-- ===== src/Php/Branches.antt =====
-- What the switch of the loop of `phpSession_load` (modules/cgi/phpsess.c) leaves.
use mathlib.Core.Option.{some-injective, none-ne-some}
use gpsee.Base.{
  ℕ, zero, suc, ◌+◌, ◌-◌, ◌≤◌, ◌≡◌, ◌≢◌, ◌⊎◌, inl, inr, refl, Bool, true, false, List, [], ◌∷◌,
  Option, none, some, arith, ◌==◌, if◌then◌else◌, length, get_elem?, drop, length-drop,
}
use gpsee.Util.{◌>>=◌}
use gpsee.Php.Strings.{strchr, atoi, strncpy, starts_with}
use gpsee.Php.Search.{IsFirst, strchr-IsFirst}
use gpsee.Php.{
  Datum, Value, as_string, zeroed, integer, string, php_string, php_integer, php_date, php_null,
  Switched, pointer, one_before, switch_text, at_colon, switch_length, switch_string, switch,
}

-- The result, if there is one, has the property.
abbrev pub Holds {ℓ κ} : {A : Type ℓ} → (A → Type κ) → Option A → Type κ
Holds P none = Unit
Holds P (some a) = P a

Holds-bind {ℓ κ μ} :
    {A : Type ℓ} {B : Type κ} (P : B → Type μ) (o : Option A) (f : A → Option B)
    → ((a : A) → o ≡ some a → Holds P (f a))
    → Holds P (o >>= f)
Holds-bind P none f h = tt
Holds-bind P (some a) f h = h a refl

Holds-if {ℓ κ} :
    {A : Type ℓ} (P : A → Type κ) (test : Bool) (a b : Option A)
    → (test ≡ true → Holds P a)
    → (test ≡ false → Holds P b)
    → Holds P (if test then a else b)
Holds-if P true a b h g = h refl
Holds-if P false a b h g = g refl

-- The pointer is not past so many bytes from the end, or NULL.
abbrev pub IsWithin : ℕ → Option (List ℕ) → Type 0
IsWithin n none = Unit
IsWithin n (some s) = length s ≤ n

-- A string or an integer, as its type says.
abbrev pub IsTyped : ℕ → Datum → Type 0
IsTyped type datum =
    ((type ≡ php_string) × (text : List ℕ) × (datum ≡ string text))
    ⊎ ((type ≡ php_integer) × (negative : Bool) × (n : ℕ) × (datum ≡ integer negative n))

-- What a member of the union stands for as a text; `none` is NULL.
abbrev pub datum_text : (Bool → ℕ → List ℕ) → Datum → Option (List ℕ)
datum_text psprintf_i zeroed = none
datum_text psprintf_i (integer negative n) = some (psprintf_i negative n)
datum_text psprintf_i (string text) = some text

pub as_string-typed :
    (psprintf_i : Bool → ℕ → List ℕ) (value : Value)
    → IsTyped value.type value.datum
    → as_string psprintf_i value ≡ some (datum_text psprintf_i value.datum)
unfolding as_string
as_string-typed psprintf_i value (inl (t, text, e)) = rw (t, e) refl
as_string-typed psprintf_i value (inr (t, negative, n, e)) = rw (t, e) refl

pub record IsSwitched (n type : ℕ) (out : Switched) : Type 0 where
  pub within : IsWithin n out.s
  pub typed :
      out.integrous ≡ true
      → IsTyped type out.datum ⊎ ((s : List ℕ) → out.s ≡ some s → get_elem? s 0 ≢ some b';')

IsSwitched-broken :
    (n type : ℕ) (s : Option (List ℕ)) (datum : Datum)
    → IsWithin n s
    → IsSwitched n type (record { integrous = false; s = s; datum = datum })
IsSwitched-broken n type s datum within = record { within = within; typed = λ e. cc }

length-drop_le : (k n : ℕ) (s : List ℕ) → length s ≤ n → length (drop k s) ≤ n
length-drop_le k n s le = omega (arith, length-drop k s, le)

pointer-IsWithin :
    (n : ℕ) (s : List ℕ) (found : Option ℕ) → length s ≤ n → IsWithin n (pointer s found)
pointer-IsWithin n s none le = tt
pointer-IsWithin n s (some k) le = length-drop_le k n s le

pub get_elem?-drop : (k : ℕ) (s : List ℕ) → get_elem? (drop k s) 0 ≡ get_elem? s k
get_elem?-drop zero s = refl
get_elem?-drop (suc k) [] = refl
get_elem?-drop (suc k) (x ∷ s) = get_elem?-drop k s

-- The byte before the first semicolon is none, where one that stands before the search is none.
before_semicolon :
    (k : ℕ) (pipe : List ℕ)
    → get_elem? pipe 0 ≢ some b';'
    → IsFirst b';' pipe k
    → get_elem? (drop (k - 1) pipe) 0 ≢ some b';'
before_semicolon zero pipe bar f = bar
before_semicolon (suc k) pipe bar f = rw get_elem?-drop (f.before (suc k - 1) (omega arith))

one_before-IsSwitched :
    (n type : ℕ) (pipe : List ℕ) (semicolon : Option ℕ)
    → get_elem? pipe 0 ≢ some b';'
    → length pipe ≤ n
    → strchr b';' pipe ≡ some semicolon
    → IsSwitched n type (record { integrous = true; s = one_before pipe semicolon; datum = zeroed })
one_before-IsSwitched n type pipe none bar le found = record {
  within = tt;
  typed = λ e. inr (λ s g. absurd (none-ne-some _ g));
}
one_before-IsSwitched n type pipe (some k) bar le found = record {
  within = length-drop_le (k - 1) n pipe le;
  typed = λ e. inr (λ s g.
      rw (← some-injective _ _ g) (before_semicolon k pipe bar (strchr-IsFirst b';' pipe k found)));
}

module _ (grants : ℕ → Bool) where
  switch_text-IsSwitched :
      (n type len : ℕ) (integrous : Bool) (colon : List ℕ)
      → (integrous ≡ true → type ≡ php_string)
      → length colon ≤ n
      → Holds (IsSwitched n type) (switch_text grants integrous colon len)
  unfolding switch_text
  switch_text-IsSwitched n type len integrous colon is le =
      Holds-if _ (grants (len + 1)) _ none
        (λ granted. Holds-bind _ (strncpy len (drop 2 colon)) _ (λ text copied.
          Holds-bind _ (starts_with b'"' b';' (drop len (drop 2 colon))) _ (λ closed compared.
            Holds-if _ closed _ _
              (λ h. record {
                within =
                    length-drop_le 1 n _ (length-drop_le len n _ (length-drop_le 2 n colon le));
                typed = λ e. inl (inl (is e, text, refl));
              })
              (λ h. IsSwitched-broken n type (some colon) (string text) le))))
        (λ refused. tt)

  at_colon-IsSwitched :
      (n type len : ℕ) (integrous negative : Bool) (colon : Option (List ℕ))
      → (integrous ≡ true → type ≡ php_string)
      → IsWithin n colon
      → Holds (IsSwitched n type) (at_colon grants integrous negative len colon)
  unfolding at_colon
  at_colon-IsSwitched n type len integrous negative none is le =
      IsSwitched-broken n type none zeroed tt
  at_colon-IsSwitched n type len integrous negative (some colon) is le =
      Holds-bind _ (get_elem? colon 1) _ (λ quote there.
        Holds-if _ (quote == b'"') _ _
          (λ h.
            Holds-if _ negative none _ (λ g. tt)
              (λ g. switch_text-IsSwitched n type len integrous colon is le))
          (λ h. IsSwitched-broken n type (some colon) zeroed le))

  switch_length-IsSwitched :
      (n type : ℕ) (integrous : Bool) (pipe : List ℕ)
      → (integrous ≡ true → type ≡ php_string)
      → length pipe ≤ n
      → Holds (IsSwitched n type) (switch_length grants integrous pipe)
  unfolding switch_length
  switch_length-IsSwitched n type integrous pipe is le =
      Holds-bind _ (atoi (drop 3 pipe)) _ (λ number read.
        Holds-bind _ (strchr b':' (drop 3 pipe)) _ (λ colon found.
          at_colon-IsSwitched n type number.1 integrous number.0 (pointer (drop 3 pipe) colon) is
            (pointer-IsWithin n (drop 3 pipe) colon (length-drop_le 3 n pipe le))))

  switch_string-IsSwitched :
      (n type : ℕ) (integrous : Bool) (s pipe : List ℕ)
      → (integrous ≡ true → type ≡ php_string)
      → length s ≤ n
      → length pipe ≤ n
      → Holds (IsSwitched n type) (switch_string grants integrous s pipe)
  unfolding switch_string
  switch_string-IsSwitched n type integrous s pipe is le lp =
      Holds-bind _ (get_elem? pipe 2) _ (λ second there.
        Holds-if _ (second == b':') _ _ (λ h. switch_length-IsSwitched n type integrous pipe is lp)
          (λ h. IsSwitched-broken n type (some s) zeroed le))

  pub switch-IsSwitched :
      (n type : ℕ) (s pipe : List ℕ)
      → get_elem? pipe 0 ≢ some b';'
      → length s ≤ n
      → length pipe ≤ n
      → Holds (IsSwitched n type) (switch grants type s pipe)
  unfolding switch
  switch-IsSwitched n type s pipe bar le lp =
      Holds-if _ (type == php_date) _ _
        (λ h. switch_string-IsSwitched n type false s pipe (λ e. cc) le lp)
        (λ h.
          Holds-if _ (type == php_string) _ _
            (λ g. switch_string-IsSwitched n type true s pipe (λ e. ground (arith, g)) le lp)
            (λ g.
              Holds-if _ (type == php_integer) _ _
                (λ f. Holds-bind _ (atoi (drop 2 pipe)) _ (λ number read.
                  Holds-bind _ (strchr b';' (drop 2 pipe)) _ (λ semicolon found. record {
                    within =
                        pointer-IsWithin n (drop 2 pipe) semicolon (length-drop_le 2 n pipe lp);
                    typed = λ e. inl (inr (ground (arith, f), number.0, number.1, refl));
                  })))
                (λ f.
                  Holds-if _ (type == php_null) _ _
                    (λ d.
                      Holds-bind _ (strchr b';' pipe) _ (λ semicolon found.
                        one_before-IsSwitched n type pipe semicolon bar lp found))
                    (λ d. IsSwitched-broken n type (some s) zeroed le))))
