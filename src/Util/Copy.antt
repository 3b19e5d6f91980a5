-- ===== src/Util/Copy.antt =====
-- `gpsee_cpystrn`, `gpsee_catstrn` and `gpsee_resolvepath` of gpsee_util.c: what they write where the
-- text fits, and the byte past the buffer that they write where it does not.
use mathlib.Core.List.{append_assoc, append-nil}
use gpsee.Base.{
  ℕ, zero, suc, ◌+◌, ◌-◌, ◌≤◌, ◌<◌, ◌≡◌, ◌≢◌, refl, ap, true, List, [], ◌∷◌, ◌++◌, none, some,
  arith, length, set, drop, length-append,
}
use gpsee.Util.{
  poke, copy_loop, cpystrn, string_end, size_mod, size_sub, catstrn, System, path_max, resolvepath,
  write_string,
}

pub set-append :
    (pre rest : List ℕ) (x c : ℕ) → set (pre ++ x ∷ rest) (length pre) c ≡ pre ++ c ∷ rest
set-append [] rest x c = refl
set-append (y ∷ pre) rest x c = ap (λ t. y ∷ t) (set-append pre rest x c)

pub poke_behind :
    (pre rest : List ℕ) (x c : ℕ) → poke (length pre) c (pre ++ x ∷ rest) ≡ some (pre ++ c ∷ rest)
unfolding poke
poke_behind pre rest x c = ground (arith, set-append pre rest x c, length-append pre (x ∷ rest))

pub poke_inside :
    (at c : ℕ) (block : List ℕ) → at < length block → poke at c block ≡ some (set block at c)
unfolding poke
poke_inside at c block lt = ground (arith, lt)

pub poke_past_end : (at c : ℕ) (block : List ℕ) → length block ≤ at → poke at c block ≡ none
unfolding poke
poke_past_end at c block le = ground (arith, le)

pub poke_past : (block : List ℕ) (c : ℕ) → poke (length block) c block ≡ none
unfolding poke
poke_past block c = ground arith

-- The copy of a string that fits, behind `pre`.
copy_loop_fits :
    (pre src rest : List ℕ) (size : ℕ)
    → length src < length rest
    → length src ≤ size
    → copy_loop (length pre) src size (pre ++ rest)
      ≡ some (length pre + length src, pre ++ (src ++ 0 ∷ drop (length src + 1) rest))
unfolding copy_loop
copy_loop_fits pre src [] size room h = absurd (omega arith)
copy_loop_fits pre [] (x ∷ rest) size room h =
    let e : length pre + 0 ≡ length pre = omega arith in rw (poke_behind pre rest x 0, e)
copy_loop_fits pre (c ∷ src) (x ∷ rest) zero room h = absurd (omega arith)
copy_loop_fits pre (c ∷ src) (x ∷ rest) (suc size) room h = ground (
  arith,
  poke_behind pre rest x c,
  copy_loop_fits (pre ++ c ∷ []) src rest size,
  append_assoc pre (c ∷ []) rest,
  append_assoc pre (c ∷ []) (src ++ 0 ∷ drop (length src + 1) rest),
  length-append pre (c ∷ []),
)

-- A string that fills the rest of the block puts its NUL behind the block.
copy_loop_past :
    (pre src rest : List ℕ) (size : ℕ)
    → size ≡ length rest
    → size ≤ length src
    → copy_loop (length pre) src size (pre ++ rest) ≡ none
unfolding copy_loop
copy_loop_past pre [] [] size e h = rw (append-nil pre, poke_past pre 0)
copy_loop_past pre (c ∷ src) [] zero e h = rw (append-nil pre, poke_past pre 0)
copy_loop_past pre (c ∷ src) [] (suc size) e h = absurd (omega arith)
copy_loop_past pre src (x ∷ rest) zero e h = absurd (omega arith)
copy_loop_past pre [] (x ∷ rest) (suc size) e h = absurd (omega arith)
copy_loop_past pre (c ∷ src) (x ∷ rest) (suc size) e h = ground (
  arith,
  poke_behind pre rest x c,
  copy_loop_past (pre ++ c ∷ []) src rest size,
  append_assoc pre (c ∷ []) rest,
  length-append pre (c ∷ []),
)

module _ (src block : List ℕ) (size : ℕ) where
  -- A string that is shorter than the size of the buffer is copied to its start with a NUL, nothing
  -- behind that changes, and the position of the NUL is returned.
  pub cpystrn_fits :
      length src < size
      → size ≤ length block
      → cpystrn 0 src size block ≡ some (length src, src ++ 0 ∷ drop (length src + 1) block)
  unfolding cpystrn
  cpystrn_fits short room = ground (arith, copy_loop_fits [] src block size)

  -- A string that is as long as the buffer or longer makes the function write its NUL one byte
  -- behind the buffer, unless the size is 0.
  pub cpystrn_past :
      0 < size → size ≡ length block → size ≤ length src → cpystrn 0 src size block ≡ none
  unfolding cpystrn
  cpystrn_past pos whole long = ground (arith, copy_loop_past [] src block size)

-- A C string: no byte of it is NUL.
pub data IsText : List ℕ → Type 0 where
  nil : IsText []
  cons : {c : ℕ} {s : List ℕ} → c ≢ 0 → IsText s → IsText (c ∷ s)

pub string_end_lem : (s junk : List ℕ) → IsText s → string_end (s ++ 0 ∷ junk) ≡ some (length s)
unfolding string_end
string_end_lem [] junk t = refl
string_end_lem (c ∷ s) junk (cons ne t) = ground (arith, string_end_lem s junk t)

module _ (s src junk : List ℕ) (size : ℕ) (text : IsText s) where
  -- Where the two strings and a NUL fit into `size` bytes, and these into the block, the string in
  -- the block becomes the concatenation of the two and nothing behind its NUL changes. The number
  -- returned is that of the bytes that the text does not take, the NUL counted as unused.
  pub catstrn_fits :
      length s + length src < size
      → size ≤ length (s ++ 0 ∷ junk)
      → size < size_mod
      → catstrn (s ++ 0 ∷ junk) src size
        ≡ some (size - (length s + length src), (s ++ src) ++ 0 ∷ drop (length src) junk)
  unfolding catstrn cpystrn size_sub
  catstrn_fits fits room small = ground (
    arith,
    string_end_lem s junk text,
    copy_loop_fits s src (0 ∷ junk) (size - length s),
    length-append s (0 ∷ junk),
    append_assoc s src (0 ∷ drop (length src) junk),
  )

  -- Where the second string does not fit into the rest of a whole block of `size` bytes, the function
  -- writes behind the block.
  pub catstrn_past :
      size ≡ length (s ++ 0 ∷ junk)
      → size ≤ length s + length src
      → size < size_mod
      → catstrn (s ++ 0 ∷ junk) src size ≡ none
  unfolding catstrn cpystrn size_sub
  catstrn_past whole long small = ground (
    arith,
    string_end_lem s junk text,
    copy_loop_past s src (0 ∷ junk) (size - length s),
    length-append s (0 ∷ junk),
  )

module _ (sys : System) (path real buf : List ℕ) (bufsiz : ℕ) where
  -- Where the system resolves a path to a text that fits into the caller's buffer (or into a buffer
  -- of the system's size, if the caller's is no smaller), and grants the buffer in between if one is
  -- needed, the text and a NUL are written to the start of the buffer and its length is returned.
  pub resolvepath_fits :
      sys.realpath path ≡ some real
      → length real < bufsiz
      → bufsiz ≤ length buf
      → (bufsiz < path_max → sys.grants path_max ≡ true)
      → resolvepath sys path (some buf) bufsiz
        ≡ some (some (length real), some (real ++ 0 ∷ drop (length real + 1) buf))
  unfolding resolvepath write_string
  resolvepath_fits found short room granted =
      ground (arith, cpystrn_fits real buf bufsiz short room)
