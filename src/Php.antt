-- ===== src/Php.antt =====
-- modules/cgi/phpsess.c, the reader of PHP session files: the parsing loop of `phpSession_load`. A
-- pointer into the mapped file is the list of the bytes from there to the end of the mapping: what is
-- left of the file and the `slack` bytes that fill its last page. `none` is a fault: a read past the
-- mapping, a write through NULL, or a number that `atoi` cannot give.
pub mod Strings
pub mod Search
pub mod Branches
pub mod Turns
pub mod Loop
pub mod Entries
pub mod RoundTrip
pub mod Load
use gpsee.Base.{
  ℕ, zero, suc, ◌+◌, ◌-◌, Bool, true, false, not, ◌&&◌, ◌||◌, List, [], ◌∷◌, Option, none, some,
  ltb, ◌==◌, if◌then◌else◌, length, get_elem?, take, drop,
}
use gpsee.Util.{◌>>=◌}
use gpsee.Php.Strings.{strchr, atoi, atoi_sign, skip_space, strncpy, starts_with}

-- The union in `php_value_t`, as `apr_pcalloc` leaves it or with the member that was stored.
pub data Datum : Type 0 where
  zeroed : Datum
  integer : Bool → ℕ → Datum
  string : List ℕ → Datum

pub record Value : Type 0 where
  pub type : ℕ
  pub datum : Datum

abbrev pub php_string : ℕ
php_string = b's'

abbrev pub php_integer : ℕ
php_integer = b'i'

abbrev pub php_date : ℕ
php_date = b'd'

abbrev pub php_null : ℕ
php_null = b'N'

-- `sizeof(php_value_t)` on a 64-bit system.
abbrev pub sizeof_value : ℕ
sizeof_value = 24

-- What the switch leaves: the flag, `s` (`none` is NULL) and what was stored in the value.
pub record Switched : Type 0 where
  pub integrous : Bool
  pub s : Option (List ℕ)
  pub datum : Datum

-- What one turn of the loop does: it breaks, or it goes on at the pointer, with a variable for the
-- hash table or none.
pub data Turn : Type 0 where
  stop : Turn
  go : List ℕ → Option (List ℕ × Value) → Turn

-- The pointer that a search from `s` gives, and the one a byte before it.
abbrev pub pointer : List ℕ → Option ℕ → Option (List ℕ)
pointer s none = none
pointer s (some k) = some (drop k s)

abbrev pub one_before : List ℕ → Option ℕ → Option (List ℕ)
one_before s none = none
one_before s (some k) = some (drop (k - 1) s)

-- The recovery: on behind the next semicolon.
abbrev pub resume : Option (List ℕ) → Turn
resume none = stop
resume (some s) = go (drop 1 s) none

unfoldable pub recover : List ℕ → Option Turn
unfolding strchr
recover pipe =
    strchr b';' (drop 1 pipe) >>= λ semicolon. some (resume (pointer (drop 1 pipe) semicolon))

-- Unnamed variables are not kept.
abbrev pub named : List ℕ → Value → Option (List ℕ × Value)
named [] value = none
named (x ∷ xs) value = some (x ∷ xs, value)

-- From behind the switch to the end of the turn.
unfoldable pub settle : List ℕ → List ℕ → ℕ → Switched → Option Turn
settle name pipe type out = elim out.s [
  | none ↦ some stop
  | some s ↦ get_elem? s 0 >>= λ c.
      (if out.integrous && (c == b';')
        then some (go (drop 1 s) (named name (record { type = type; datum = out.datum })))
        else recover pipe)
]

-- Does the pool give so many bytes? Otherwise `apr_palloc` gives NULL.
module _ (grants : ℕ → Bool) where
  -- The string behind its length, `colon` being the pointer to the second colon; the flag is what
  -- `integrous` was on the way in.
  unfoldable pub switch_text : Bool → List ℕ → ℕ → Option Switched
  unfolding strncpy starts_with
  switch_text integrous colon len =
      if grants (len + 1)
      then (do
        text ← strncpy len (drop 2 colon)
        closed ← starts_with b'"' b';' (drop len (drop 2 colon))
        (if closed
            then some (record {
              integrous = integrous;
              s = some (drop 1 (drop len (drop 2 colon)));
              datum = string text;
            })
            else some (record { integrous = false; s = some colon; datum = string text })))
      else none

  -- At the second colon, or without one; a length below zero is a `size_t` near 2 ^ 64, and `strncpy`
  -- of so many bytes leaves every block.
  unfoldable pub at_colon : Bool → Bool → ℕ → Option (List ℕ) → Option Switched
  at_colon integrous negative len none =
      some (record { integrous = false; s = none; datum = zeroed })
  at_colon integrous negative len (some colon) = do
    quote ← get_elem? colon 1
    (if quote == b'"'
        then (if negative then none else switch_text integrous colon len)
        else some (record { integrous = false; s = some colon; datum = zeroed }))

  -- From behind the first colon.
  unfoldable pub switch_length : Bool → List ℕ → Option Switched
  unfolding strchr atoi_sign skip_space
  switch_length integrous pipe = do
    (negative, len) ← atoi (drop 3 pipe)
    colon ← strchr b':' (drop 3 pipe)
    at_colon integrous negative len (pointer (drop 3 pipe) colon)

  -- `case php_string`, and what `case php_date` falls into.
  unfoldable pub switch_string : Bool → List ℕ → List ℕ → Option Switched
  switch_string integrous s pipe = do
    second ← get_elem? pipe 2
    if second == b':'
        then switch_length integrous pipe
        else some (record { integrous = false; s = some s; datum = zeroed })

  unfoldable pub switch : ℕ → List ℕ → List ℕ → Option Switched
  unfolding strchr atoi_sign skip_space
  switch type s pipe =
      if type == php_date
      then switch_string false s pipe
      else (if type == php_string
          then switch_string true s pipe
          else (if type == php_integer
              then (do
                (negative, n) ← atoi (drop 2 pipe)
                semicolon ← strchr b';' (drop 2 pipe)
                some (record {
                  integrous = true;
                  s = pointer (drop 2 pipe) semicolon;
                  datum = integer negative n;
                }))
              else (if type == php_null
                  then (do
                    semicolon ← strchr b';' pipe
                    some (record {
                      integrous = true;
                      s = one_before pipe semicolon;
                      datum = zeroed;
                    }))
                  else some (record { integrous = false; s = some s; datum = zeroed }))))

  -- At the end of the name, or without one.
  unfoldable pub at_pipe : List ℕ → Option ℕ → Option Turn
  at_pipe s none = some stop
  at_pipe s (some k) =
      if grants (k + 1) && grants sizeof_value
      then (do
        type ← get_elem? (drop k s) 1
        out ← switch type s (drop k s)
        settle (take k s) (drop k s) type out)
      else none

  unfoldable pub turn : List ℕ → Option Turn
  unfolding strchr
  turn s = strchr b'|' s >>= λ found. at_pipe s found

-- What the loop comes to; `unfinished` is a run without fuel.
pub data Outcome {ℓ} (A : Type ℓ) : Type ℓ where
  loaded : A → Outcome A
  fault : Outcome A
  unfinished : Outcome A

-- `apr_hash_t` from APR: an empty table, `apr_hash_set` and `apr_hash_get`.
pub record Hash : Type 1 where
  pub Table : Type 0
  pub make : Table
  pub set_value : Table → List ℕ → Value → Table
  pub get_value : Table → List ℕ → Option Value

abbrev pub keep : (hash : Hash) → hash.Table → Option (List ℕ × Value) → hash.Table
keep hash table none = table
keep hash table (some (name, value)) = hash.set_value table name value

module _ (hash : Hash) (grants : ℕ → Bool) (slack : ℕ) where
  unfoldable pub parse_loop : ℕ → List ℕ → hash.Table → Outcome hash.Table
  unfolding turn
  parse_loop zero s table = unfinished
  parse_loop (suc fuel) s table =
      if ltb slack (length s)
      then (elim (turn grants s) [
        | none ↦ fault
        | some stop ↦ loaded table
        | some (go rest kept) ↦ parse_loop fuel rest (keep hash table kept)
      ])
      else loaded table

  -- The loop on the mapped file; each turn but the last goes on by a byte or more.
  abbrev pub parse : List ℕ → Outcome hash.Table
  parse image = parse_loop (suc (length image)) image hash.make

-- The members of the union, `some none` being the NULL that `apr_pcalloc` leaves; `none` is the read
-- of a member that another one was stored over.
abbrev pub data_integer : Datum → Option (Bool × ℕ)
data_integer zeroed = some (false, 0)
data_integer (integer negative n) = some (negative, n)
data_integer (string text) = none

abbrev pub data_string : Datum → Option (Option (List ℕ))
data_string zeroed = some none
data_string (integer negative n) = none
data_string (string text) = some (some text)

-- `psprintf_i` is `apr_psprintf(pool, "%i", …)` from APR.
unfoldable pub as_string : (Bool → ℕ → List ℕ) → Value → Option (Option (List ℕ))
as_string psprintf_i value =
    if value.type == php_integer
    then (data_integer value.datum >>= λ (negative, n). some (some (psprintf_i negative n)))
    else data_string value.datum

-- `some none` is NULL.
module _ (hash : Hash) (psprintf_i : Bool → ℕ → List ℕ) where
  unfoldable pub get_string : hash.Table → List ℕ → Option (Option (List ℕ))
  unfolding as_string
  get_string table name = elim (hash.get_value table name) [
    | none ↦ some none
    | some value ↦ as_string psprintf_i value
  ]
