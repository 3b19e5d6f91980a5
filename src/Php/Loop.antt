-- ===== src/Php/Loop.antt =====
-- The parsing loop of `phpSession_load` (modules/cgi/phpsess.c) as a whole: that it ends, and what the
-- hash table then holds.
use gpsee.Base.{
  ℕ, zero, suc, ◌≤◌, ◌<◌, ◌≡◌, ◌≢◌, ◌⊎◌, inl, inr, refl, sym, ap, ◌∙◌, Bool, true, false, List, [],
  Option, none, some, arith, ltb, Bool-cases, Option-cases, length,
}
use mathlib.Core.Option.{some-injective, none-ne-some}
use gpsee.Base.Name.{same_name, same_name_refl, same_name_eq}
use gpsee.Php.Branches.{datum_text, as_string-typed, IsTyped}
use gpsee.Php.Turns.{IsTurn, fault, last, skipped, kept, turn-IsTurn}
use gpsee.Php.{get_string, Value, Turn, turn, Outcome, loaded, fault, Hash, parse_loop, parse}

-- What APR documents of its hash tables.
pub record IsHash (hash : Hash) : Type 0 where
  pub get-make : (name : List ℕ) → hash.get_value hash.make name ≡ none
  pub get-set :
      (table : hash.Table) (name : List ℕ) (value : Value)
      → hash.get_value (hash.set_value table name value) name ≡ some value
  pub get-set_ne :
      (table : hash.Table) (name other : List ℕ) (value : Value)
      → other ≢ name
      → hash.get_value (hash.set_value table name value) other ≡ hash.get_value table other

-- What holds of a table holds behind `apr_hash_set` of a variable with a name, and of the kind that
-- its type says.
abbrev IsKeeping : (hash : Hash) → (hash.Table → Type 0) → Type 0
IsKeeping hash P =
    (table : hash.Table) (name : List ℕ) (value : Value)
    → name ≢ []
    → IsTyped value.type value.datum
    → P table
    → P (hash.set_value table name value)

module _ (hash : Hash) (grants : ℕ → Bool) (slack : ℕ) (P : hash.Table → Type 0) where
  -- It ends with a table that has the property, or faults.
  abbrev IsEnded : Outcome hash.Table → Type 0
  IsEnded result = ((table : hash.Table) × (result ≡ loaded table) × P table) ⊎ (result ≡ fault)

  round-IsEnded :
      (fuel : ℕ) (s : List ℕ) (table : hash.Table) (o : Option Turn)
      → IsKeeping hash P
      → length s ≤ fuel
      → ltb slack (length s) ≡ true
      → P table
      → ((rest : List ℕ) (t : hash.Table)
          → length rest < fuel
          → P t
          → IsEnded (parse_loop hash grants slack fuel rest t))
      → turn grants s ≡ o
      → IsTurn s o
      → IsEnded (parse_loop hash grants slack (suc fuel) s table)
  unfolding parse_loop
  round-IsEnded fuel s table _ keeps le more p ih e fault = rw (more, parse_loop, e) (inr refl)
  round-IsEnded fuel s table _ keeps le more p ih e last =
      rw (more, parse_loop, e) (inl (table, refl, p))
  round-IsEnded fuel s table _ keeps le more p ih e (skipped rest lt) =
      rw (more, parse_loop, e) (ih rest table (omega (arith, le, lt)) p)
  round-IsEnded fuel s table _ keeps le more p ih e (kept rest name value lt ne typed) =
      rw (more, parse_loop, e)
        (ih rest (hash.set_value table name value) (omega (arith, le, lt))
          (keeps table name value ne typed p))

  parse_loop-IsEnded :
      (fuel : ℕ) (s : List ℕ) (table : hash.Table)
      → IsKeeping hash P
      → length s < fuel
      → P table
      → IsEnded (parse_loop hash grants slack fuel s table)
  unfolding parse_loop
  parse_loop-IsEnded zero s table keeps lt p = absurd (omega (arith, lt))
  parse_loop-IsEnded (suc fuel) s table keeps lt p = elim (Bool-cases (ltb slack (length s))) [
    | inr h ↦ rw (h, parse_loop) (inl (table, refl, p))
    | inl h ↦
        round-IsEnded fuel s table (turn grants s) keeps (omega (arith, lt)) h p
          (λ rest t lt' p'. parse_loop-IsEnded fuel rest t keeps lt' p') refl (turn-IsTurn grants s)
  ]

-- The loop ends with a table, or faults.
pub parse_cases :
    (hash : Hash) (grants : ℕ → Bool) (slack : ℕ) (image : List ℕ)
    → ((table : hash.Table) × (parse hash grants slack image ≡ loaded table))
      ⊎ (parse hash grants slack image ≡ fault)
parse_cases hash grants slack image =
    elim (parse_loop-IsEnded hash grants slack (λ t. Unit) (suc (length image)) image hash.make
      (λ t name value ne typed p. tt) (omega arith) tt) [
        | inl (table, e, p) ↦ inl (table, e)
        | inr e ↦ inr e
      ]

-- Every variable of the table has a name, and the member of the union that its type says.
abbrev IsWellTyped : (hash : Hash) → hash.Table → Type 0
IsWellTyped hash table =
    (name : List ℕ) (value : Value)
    → hash.get_value table name ≡ some value
    → (name ≢ []) × IsTyped value.type value.datum

pub same_name_ne : (a b : List ℕ) → same_name a b ≡ false → a ≢ b
same_name_ne a b h e = ground (arith, h, same_name_refl a, ap (same_name a) e)

IsWellTyped-IsKeeping : (hash : Hash) → IsHash hash → IsKeeping hash (IsWellTyped hash)
IsWellTyped-IsKeeping hash laws table name value ne typed p other found e =
    elim (Bool-cases (same_name other name)) [
      | inl h ↦
          let same = same_name_eq other name h in
          let v : value ≡ found =
            some-injective _ _ (sym (laws.get-set table name value) ∙ rw same at e) in
          (rw same ne, rw (← v) typed)
      | inr h ↦
          p other found
            (sym (laws.get-set_ne table name other value (same_name_ne other name h)) ∙ e)
    ]

-- What is found under a name: nothing, or a value of the kind that its type says.
abbrev pub IsFound : List ℕ → Option Value → Type 0
IsFound name none = Unit
IsFound name (some value) = (name ≢ []) × IsTyped value.type value.datum

-- The text of what is found; `none` is NULL.
abbrev pub text_of : (Bool → ℕ → List ℕ) → Option Value → Option (List ℕ)
text_of psprintf_i none = none
text_of psprintf_i (some value) = datum_text psprintf_i value.datum

pub get_string-text_of :
    (hash : Hash) (psprintf_i : Bool → ℕ → List ℕ) (table : hash.Table) (name : List ℕ)
    (found : Option Value)
    → IsFound name found
    → hash.get_value table name ≡ found
    → get_string hash psprintf_i table name ≡ some (text_of psprintf_i found)
unfolding get_string
get_string-text_of hash psprintf_i table name none typed h = rw (get_string, h) refl
get_string-text_of hash psprintf_i table name (some value) (ne, typed) h =
    rw (get_string, h) (as_string-typed psprintf_i value typed)

IsFound-get_value :
    (hash : Hash) (table : hash.Table) (name : List ℕ)
    → IsWellTyped hash table
    → IsFound name (hash.get_value table name)
IsFound-get_value hash table name typed = elim (Option-cases (hash.get_value table name)) [
  | inl h ↦ rw h tt
  | inr (value, h) ↦ rw h (typed name value h)
]

-- On any mapped file the loop of phpSession_load ends with a table or faults. If the tables keep what
-- is put into them, then in the table that it ends with a name has nothing, or the name is not empty
-- and what it has is a string or an integer, as the type says: no NULL is kept, and no date. So
-- phpSession_getString on that table reads only the member of the union that was stored, and gives
-- NULL or the text of what the name has.
pub parse-IsTyped :
    (hash : Hash) (grants : ℕ → Bool) (psprintf_i : Bool → ℕ → List ℕ) (slack : ℕ)
    (image name : List ℕ)
    → IsHash hash
    → ((table : hash.Table) × (parse hash grants slack image ≡ loaded table)
        × IsFound name (hash.get_value table name)
        × (get_string hash psprintf_i table name
            ≡ some (text_of psprintf_i (hash.get_value table name))))
      ⊎ (parse hash grants slack image ≡ fault)
parse-IsTyped hash grants psprintf_i slack image name laws =
    elim (parse_loop-IsEnded hash grants slack (IsWellTyped hash) (suc (length image)) image
      hash.make (IsWellTyped-IsKeeping hash laws) (omega arith)
      (λ other value e. absurd (none-ne-some _ (sym (laws.get-make other) ∙ e)))) [
        | inr e ↦ inr e
        | inl (table, e, typed) ↦
            let found = IsFound-get_value hash table name typed in
            inl (table, e, found, get_string-text_of hash psprintf_i table name _ found refl)
      ]
