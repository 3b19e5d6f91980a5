-- ===== src/Util.antt =====
-- gpsee_util.c, the functions on strings and paths, in a build for Linux. A C string is the list of
-- its bytes before the NUL, and a block of memory the list of its bytes; `none` is a read or a write
-- past the end of the block.
pub mod Copy
pub mod Path
use gpsee.Base.{
  ℕ, zero, suc, ◌+◌, ◌-◌, ◌%◌, ◌^◌, Bool, true, false, List, [], ◌∷◌, ◌++◌, Option, none, some, ltb,
  leb, ◌==◌, if◌then◌else◌, length, set, take, drop,
}

infixl 5 ◌>>=◌
abbrev pub ◌>>=◌ {ℓ κ} : {A : Type ℓ} {B : Type κ} → Option A → (A → Option B) → Option B
none >>= f = none
some a >>= f = f a

unfoldable pub poke : ℕ → ℕ → List ℕ → Option (List ℕ)
poke at c block = if ltb at (length block) then some (set block at c) else none

-- The loop of `gpsee_cpystrn` with `dst` at `at`, and the NUL behind it: where `dst` stands at the
-- end, and the block.
copy_loop : ℕ → List ℕ → ℕ → List ℕ → Option (ℕ × List ℕ)
unfolding poke
copy_loop at [] size block = poke at 0 block >>= λ b. some (at, b)
copy_loop at (c ∷ src) zero block = poke at 0 block >>= λ b. some (at, b)
copy_loop at (c ∷ src) (suc size) block = do b ← poke at c block; copy_loop (at + 1) src size b

pub cpystrn : ℕ → List ℕ → ℕ → List ℕ → Option (ℕ × List ℕ)
unfolding copy_loop
cpystrn at src size block = if size == 0 then some (at, block) else copy_loop at src size block

-- `for (s = dst; *s; s++);`
unfoldable pub string_end : List ℕ → Option ℕ
string_end [] = none
string_end (c ∷ block) =
    if c == 0 then some 0 else (elim (string_end block) [ none ↦ none | some n ↦ some (suc n) ])

-- `size_t`, with what a subtraction wraps to.
abbrev pub size_mod : ℕ
size_mod = 2 ^ 64

unfoldable pub size_sub : ℕ → ℕ → ℕ
size_sub a b = (a + size_mod - b) % size_mod

pub catstrn : List ℕ → List ℕ → ℕ → Option (ℕ × List ℕ)
unfolding cpystrn string_end size_sub
catstrn block src size =
    if size == 0
    then some (0, block)
    else (string_end block >>= λ at.
        let rest = size_sub size at in
        cpystrn at src rest block >>= λ (s, b). some (size_sub rest (s - at), b))

-- `strrchr`, as an offset.
unfoldable pub last_index : ℕ → List ℕ → Option ℕ
last_index c [] = none
last_index c (x ∷ xs) = elim (last_index c xs) [
  | some i ↦ some (suc i)
  | none ↦ if x == c then some 0 else none
]

unfoldable pub basename : List ℕ → List ℕ
basename path = elim (last_index b'/' path) [
  | none ↦ path
  | some slash ↦ if length path == slash + 1 then b'/' ∷ [] else drop (slash + 1) path
]

-- The string that is put into the buffer of `size` bytes; `none` is NULL.
unfoldable pub dirname : List ℕ → ℕ → Option (List ℕ)
dirname path size = if ltb size 2 then none else (elim (last_index b'/' path) [
  | none ↦ some (b'.' ∷ [])
  | some slash ↦ if leb size slash then none else some (take slash path)
])

abbrev pub path_max : ℕ
path_max = 4096

-- What the system answers: `realpath`, and whether `malloc` gives so many bytes.
pub record System : Type 0 where
  pub grants : ℕ → Bool
  pub realpath : List ℕ → Option (List ℕ)

-- A string and its NUL at the start of a block, as `realpath` writes it.
pub write_string : List ℕ → List ℕ → Option (List ℕ)
write_string text block =
    if ltb (length text) (length block)
    then some (text ++ 0 ∷ drop (length text + 1) block)
    else none

module _ (sys : System) where
  -- The result is the returned length, `none` for -1, and the caller's buffer, `none` for NULL.
  pub resolvepath : List ℕ → Option (List ℕ) → ℕ → Option (Option ℕ × Option (List ℕ))
  unfolding cpystrn write_string
  resolvepath path none bufsiz = some (none, none)
  resolvepath path (some buf) bufsiz =
      if ltb bufsiz path_max
      then (if sys.grants path_max
          then (elim (sys.realpath path) [
            | none ↦ some (none, some buf)
            | some real ↦ cpystrn 0 real bufsiz buf >>= λ (s, b).
                some (if s == bufsiz then none else some s, some b)
          ])
          else some (none, some buf))
      else (elim (sys.realpath path) [
        | none ↦ some (none, some buf)
        | some real ↦ write_string real buf >>= λ b. some (some (length real), some b)
      ])
