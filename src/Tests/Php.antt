-- ===== src/Tests/Php.antt =====
-- The reader of PHP session files (modules/cgi/phpsess.c).
use gpsee.Base.{
  ℕ, ◌+◌, ◌≡◌, ◌≢◌, ◌⊎◌, inl, inr, refl, Bool, true, false, List, [], ◌∷◌, ◌++◌, Option, none, some,
  arith, ltb, ◌==◌, ◌||◌, if◌then◌else◌, Bool-cases,
}
use gpsee.Base.Name.{same_name, same_name_refl, same_name_eq}
use gpsee.Base.Text.{codes}
use gpsee.Util.Path.{Lacks, nil, cons}
use gpsee.Php.Strings.{strchr}
use gpsee.Php.Loop.{IsFound, text_of, IsHash, parse-IsTyped}
use gpsee.Php.Entries.{
  done, digit, Entry, string_entry, integer_entry, null_entry, write_all, string_fits, IsName,
  integer_fits, null_fits,
}
use gpsee.Php.RoundTrip.{AreEntries, latest, get_string-parse}
use gpsee.Php.{Value, loaded, fault, Hash, turn, parse_loop, parse, get_string}
use gpsee.Php.Load.{Config, cfg_undef, Disk, Returned, load}
use gpsee.Php.Load.Sequence.{shut, run, locks, load-run}

-- Tables as lists of bindings, the last one first.
abbrev Table : Type 0
Table = List (List ℕ × Value)

lookup : Table → List ℕ → Option Value
lookup [] name = none
lookup ((other, value) ∷ table) name =
    if same_name name other then some value else lookup table name

abbrev bindings : Hash
bindings = record {
  Table = Table;
  make = [];
  set_value = λ table name value. (name, value) ∷ table;
  get_value = lookup;
}

lookup-set :
    (table : Table) (name : List ℕ) (value : Value)
    → lookup ((name, value) ∷ table) name ≡ some value
unfolding lookup
lookup-set table name value = rw same_name_refl refl

lookup-set_ne :
    (table : Table) (name other : List ℕ) (value : Value)
    → other ≢ name
    → lookup ((name, value) ∷ table) other ≡ lookup table other
unfolding lookup
lookup-set_ne table name other value ne = elim (Bool-cases (same_name other name)) [
  | inl h ↦ absurd (ne (same_name_eq other name h))
  | inr h ↦ rw h refl
]

bindings-IsHash : IsHash bindings
unfolding lookup
bindings-IsHash = record {
  get-make = λ name. refl;
  get-set = lookup-set;
  get-set_ne = lookup-set_ne;
}

abbrev all_granted : ℕ → Bool
all_granted n = true

-- `psprintf_i` for small numbers.
abbrev one_digit : Bool → ℕ → List ℕ
one_digit negative n = (b'0' + n) ∷ []

-- A user, a count and a flag, and the user again.
abbrev entries : List Entry
entries =
    string_entry (codes "user") (codes "3") (codes "a;b")
    ∷ integer_entry (codes "n") (codes "5")
    ∷ null_entry (codes "f")
    ∷ string_entry (codes "user") (codes "2") (codes "me")
    ∷ []

file_text : write_all entries [] ≡ codes "user|s:3:\"a;b\";n|i:5;f|N;user|s:2:\"me\";"
file_text = refl

has : ℕ → List ℕ → Bool
has c [] = false
has c (x ∷ s) = (x == c) || has c s

Lacks-has : (c : ℕ) (s : List ℕ) → has c s ≡ false → Lacks c s
unfolding has
Lacks-has c [] h = nil
Lacks-has c (x ∷ s) h = cons (ground (arith, h)) (Lacks-has c s (ground (arith, h)))

user-IsName : IsName (codes "user")
unfolding has
user-IsName = (Lacks-has b'|' (codes "user") refl, Lacks-has 0 (codes "user") refl)

entries-AreEntries : AreEntries entries
unfolding has
entries-AreEntries = (
  string_fits user-IsName (digit refl done) (omega arith) (Lacks-has 0 (codes "a;b") refl),
  (
    integer_fits (Lacks-has b'|' (codes "n") refl, Lacks-has 0 (codes "n") refl)
        (Lacks-has b';' (codes "5") refl) (Lacks-has 0 (codes "5") refl),
    (
      null_fits (Lacks-has b'|' (codes "f") refl, Lacks-has 0 (codes "f") refl),
      (string_fits user-IsName (digit refl done) (omega arith) (Lacks-has 0 (codes "me") refl), tt),
    ),
  ),
)

get_string-parse_example :
    (table : Table) × (parse bindings all_granted 2 (write_all entries (0 ∷ 0 ∷ [])) ≡ loaded table)
    × (get_string bindings one_digit table (codes "user")
        ≡ some (text_of one_digit (latest (codes "user") none entries)))
get_string-parse_example =
    get_string-parse bindings all_granted one_digit entries (0 ∷ 0 ∷ []) (codes "user")
      bindings-IsHash (λ n. refl) entries-AreEntries

latest_user : text_of one_digit (latest (codes "user") none entries) ≡ some (codes "me")
unfolding same_name
latest_user = refl

-- The integer 5 is given as 0.
latest_count : text_of one_digit (latest (codes "n") none entries) ≡ some (codes "0")
unfolding same_name
latest_count = refl

parse-IsTyped_example :
    ((table : Table) × (parse bindings all_granted 1 (codes "n|i:5;x" ++ 0 ∷ []) ≡ loaded table)
      × IsFound (codes "n") (lookup table (codes "n"))
      × (get_string bindings one_digit table (codes "n")
          ≡ some (text_of one_digit (lookup table (codes "n")))))
    ⊎ (parse bindings all_granted 1 (codes "n|i:5;x" ++ 0 ∷ []) ≡ fault)
parse-IsTyped_example =
    parse-IsTyped bindings all_granted one_digit 1 (codes "n|i:5;x" ++ 0 ∷ []) (codes "n")
      bindings-IsHash

-- A file that ends with its page, after a name, is read past the mapping.
read_past : parse bindings all_granted 0 (codes "name") ≡ fault
unfolding parse_loop turn strchr
read_past = refl

abbrev settings : Config
settings = record {
  lock_php_session_files = cfg_undef;
  block_for_php_session_locks = cfg_undef;
  touch_php_session_files = cfg_undef;
}

-- The lock is given by the blocking call.
abbrev disk : Disk
disk = record {
  open_status = 0;
  lock_status = λ call. if ltb call 3 then 11 else 0;
  info_status = 0;
  mmap_status = 0;
  usable = true;
  contents = codes "f|N;";
  fill = 0 ∷ [];
}

load-run_example :
    (load bindings all_granted settings disk ≡ fault)
    ⊎ ((r : Returned bindings) × (load bindings all_granted settings disk ≡ loaded r)
        × (run (locks settings) shut r.events ≡ some shut)
        × ((r.session ≡ none) ⊎ (r.status ≡ 0)))
load-run_example = load-run bindings all_granted settings disk
