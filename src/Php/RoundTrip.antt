-- ===== src/Php/RoundTrip.antt =====
-- What PHP writes for the variables of a session, and what the loop of `phpSession_load`
-- (modules/cgi/phpsess.c) keeps of it.
use gpsee.Base.{
  ℕ, zero, suc, ◌≤◌, ◌<◌, ◌≡◌, inl, inr, refl, ◌≢◌, subst, ◌∙◌, Bool, true, false, List, [], ◌∷◌,
  Option, none, some, arith, ltb, if◌then◌else◌, Bool-cases, length,
}
use gpsee.Base.Name.{same_name, same_name_eq}
use gpsee.Php.Entries.{
  Entry, write, write_all, IsEntry, kept_of, turn-write, string_entry, integer_entry, null_entry,
}
use gpsee.Php.Branches.{IsTyped}
use gpsee.Php.Loop.{IsFound, text_of, get_string-text_of, IsHash, same_name_ne}
use gpsee.Php.Turns.{IsTurn, skipped, kept, turn-IsTurn}
use gpsee.Php.{Value, named, go, loaded, Hash, keep, parse_loop, parse, get_string}

abbrev pub AreEntries : List Entry → Type 0
AreEntries [] = Unit
AreEntries (e ∷ entries) = IsEntry e × AreEntries entries

-- The value that was written last under the name; `found` is the one before the entries.
abbrev pub newer : List ℕ → Option (List ℕ × Value) → Option Value → Option Value
newer name none found = found
newer name (some (other, value)) found = if same_name name other then some value else found

abbrev pub latest : List ℕ → Option Value → List Entry → Option Value
latest name found [] = found
latest name found (e ∷ entries) = latest name (newer name (kept_of e) found) entries

shorter :
    (s rest : List ℕ) (k : Option (List ℕ × Value))
    → IsTurn s (some (go rest k))
    → length rest < length s
shorter s rest _ (skipped _ lt) = lt
shorter s rest _ (kept _ name value lt ne typed) = lt

-- The table behind the entries, each kept in its turn.
abbrev keep_all : (hash : Hash) → hash.Table → List Entry → hash.Table
keep_all hash table [] = table
keep_all hash table (e ∷ entries) = keep_all hash (keep hash table (kept_of e)) entries

module _ (hash : Hash) (grants : ℕ → Bool) (all : (n : ℕ) → grants n ≡ true) where
  shorter-write : (e : Entry) (rest : List ℕ) → IsEntry e → length rest < length (write e rest)
  shorter-write e rest h = shorter (write e rest) rest (kept_of e) (
      subst (IsTurn (write e rest)) (turn-write grants all e rest h)
        (turn-IsTurn grants (write e rest)))

  length-write_all :
      (entries : List Entry) (fill : List ℕ)
      → AreEntries entries
      → length fill ≤ length (write_all entries fill)
  length-write_all [] fill h = omega arith
  length-write_all (e ∷ entries) fill (h, hs) =
      omega (arith, shorter-write e (write_all entries fill) h, length-write_all entries fill hs)

  parse_loop-write_all :
      (entries : List Entry) (fill : List ℕ) (fuel : ℕ) (table : hash.Table)
      → AreEntries entries
      → length (write_all entries fill) < fuel
      → parse_loop hash grants (length fill) fuel (write_all entries fill) table
        ≡ loaded (keep_all hash table entries)
  unfolding parse_loop
  parse_loop-write_all entries fill zero table h lt = absurd (omega (arith, lt))
  parse_loop-write_all [] fill (suc fuel) table h lt =
      let at_end : ltb (length fill) (length fill) ≡ false = ground arith in
      rw (parse_loop, at_end) refl
  parse_loop-write_all (e ∷ entries) fill (suc fuel) table (h, hs) lt =
      let rest = write_all entries fill in
      let less = shorter-write e rest h in
      let more : ltb (length fill) (length (write e rest)) ≡ true =
        ground (arith, less, length-write_all entries fill hs) in
      rw (parse_loop, more, turn-write grants all e rest h)
        (parse_loop-write_all entries fill fuel (keep hash table (kept_of e)) hs
          (omega (arith, lt, less)))

module _ (hash : Hash) (laws : IsHash hash) where
  get_value-keep :
      (table : hash.Table) (name : List ℕ) (k : Option (List ℕ × Value)) (found : Option Value)
      → hash.get_value table name ≡ found
      → hash.get_value (keep hash table k) name ≡ newer name k found
  get_value-keep table name none found e = e
  get_value-keep table name (some (other, value)) found e =
      elim (Bool-cases (same_name name other)) [
        | inl h ↦ rw h (rw (same_name_eq name other h) (laws.get-set table other value))
        | inr h ↦ rw h (laws.get-set_ne table other name value (same_name_ne name other h) ∙ e)
      ]

  get_value-keep_all :
      (entries : List Entry) (table : hash.Table) (name : List ℕ) (found : Option Value)
      → hash.get_value table name ≡ found
      → hash.get_value (keep_all hash table entries) name ≡ latest name found entries
  get_value-keep_all [] table name found e = e
  get_value-keep_all (e ∷ entries) table name found h =
      get_value-keep_all entries (keep hash table (kept_of e)) name (newer name (kept_of e) found)
        (get_value-keep table name (kept_of e) found h)

IsFound-newer_kept :
    (name other : List ℕ) (value : Value) (found : Option Value)
    → IsTyped value.type value.datum
    → IsFound name found
    → IsFound name (newer name (named other value) found)
IsFound-newer_kept name [] value found typed h = h
IsFound-newer_kept name (x ∷ other) value found typed h =
    elim (Bool-cases (same_name name (x ∷ other))) [
      | inl same ↦
          let ne : name ≢ [] = λ e. ground (arith, same_name_eq name (x ∷ other) same) in
          rw same (ne, typed)
      | inr apart ↦ rw apart h
    ]

IsFound-newer :
    (name : List ℕ) (e : Entry) (found : Option Value)
    → IsFound name found
    → IsFound name (newer name (kept_of e) found)
IsFound-newer name (string_entry other digits text) found h =
    IsFound-newer_kept name other _ found (inl (refl, text, refl)) h
IsFound-newer name (integer_entry other digits) found h =
    IsFound-newer_kept name other _ found (inr (refl, false, 0, refl)) h
IsFound-newer name (null_entry other) found h = h

IsFound-latest :
    (name : List ℕ) (found : Option Value) (entries : List Entry)
    → IsFound name found
    → IsFound name (latest name found entries)
IsFound-latest name found [] h = h
IsFound-latest name found (e ∷ entries) h =
    IsFound-latest name (newer name (kept_of e) found) entries (IsFound-newer name e found h)

-- A session file of entries as PHP writes them, with names that hold no "|" and no NUL, strings
-- without a NUL whose length the digits in front of them give and that fits an int, and integers
-- without ";" and NUL, is loaded to its end, whatever stands behind it in the last page, if the pool
-- gives every block and the tables keep what is put into them. phpSession_getString then gives for
-- a name what the last entry under it is: a string as it was written, but an integer always as
-- 0; entries without a name, and NULLs, count for nothing.
pub get_string-parse :
    (hash : Hash) (grants : ℕ → Bool) (psprintf_i : Bool → ℕ → List ℕ) (entries : List Entry)
    (fill name : List ℕ)
    → IsHash hash
    → ((n : ℕ) → grants n ≡ true)
    → AreEntries entries
    → (table : hash.Table) × (parse hash grants (length fill) (write_all entries fill)
        ≡ loaded table)
      × (get_string hash psprintf_i table name
          ≡ some (text_of psprintf_i (latest name none entries)))
get_string-parse hash grants psprintf_i entries fill name laws all h =
    let table = keep_all hash hash.make entries in
    (
      table,
      parse_loop-write_all hash grants all entries fill _ hash.make h (omega arith),
      get_string-text_of hash psprintf_i table name (latest name none entries)
          (IsFound-latest name none entries tt)
          (get_value-keep_all hash laws entries hash.make name none (laws.get-make name)),
    )
