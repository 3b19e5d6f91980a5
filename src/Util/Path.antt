-- ===== src/Util/Path.antt =====
-- `gpsee_basename` and `gpsee_dirname` of gpsee_util.c take a path apart.
use gpsee.Base.{
  ℕ, suc, ◌+◌, ◌≤◌, ◌≡◌, ◌≢◌, refl, List, [], ◌∷◌, ◌++◌, none, some, arith, ltb, ◌==◌,
  if◌then◌else◌, length, take, drop,
}
use gpsee.Util.{last_index, basename, dirname}

-- The byte does not stand in the text.
pub data Lacks (c : ℕ) : List ℕ → Type 0 where
  nil : Lacks c []
  cons : {x : ℕ} {s : List ℕ} → x ≢ c → Lacks c s → Lacks c (x ∷ s)

pub Lacks-cons : {c x : ℕ} {s : List ℕ} → Lacks c (x ∷ s) → (x ≢ c) × Lacks c s
Lacks-cons (cons ne l) = (ne, l)

pub last_index-eq-none : (c : ℕ) (s : List ℕ) → Lacks c s → last_index c s ≡ none
unfolding last_index
last_index-eq-none c [] l = refl
last_index-eq-none c (x ∷ s) (cons ne l) = ground (arith, last_index-eq-none c s l)

pub last_index-append :
    (c : ℕ) (s t : List ℕ) → Lacks c t → last_index c (s ++ c ∷ t) ≡ some (length s)
unfolding last_index
last_index-append c [] t l = ground (arith, last_index-eq-none c t l)
last_index-append c (x ∷ s) t l = rw (last_index-append c s t l)

pub take-length : (s t : List ℕ) → take (length s) (s ++ t) ≡ s
take-length [] t = refl
take-length (x ∷ s) t = rw (take-length s t)

drop-suc : (s t : List ℕ) (x : ℕ) → drop (suc (length s)) (s ++ x ∷ t) ≡ t
drop-suc [] t x = refl
drop-suc (y ∷ s) t x = drop-suc s t x

length-split : (s t : List ℕ) (x : ℕ) → length (s ++ x ∷ t) ≡ length s + 1 + length t
length-split [] t x = omega arith
length-split (y ∷ s) t x = omega (arith, length-split s t x)

-- A path of a directory, a slash and a name without slashes is taken apart into the two, if the name
-- is not empty (else the base name is "/") and the directory fits the buffer with its NUL. Without a
-- slash the directory is "." and the base name the path itself.
pub dirname-basename :
    (dir name : List ℕ) (size : ℕ)
    → Lacks b'/' name
    → 2 ≤ size
    → (dirname (dir ++ b'/' ∷ name) size ≡ (if ltb (length dir) size then some dir else none))
      × (basename (dir ++ b'/' ∷ name) ≡ (if length name == 0 then b'/' ∷ [] else name))
      × (dirname name size ≡ some (b'.' ∷ []))
      × (basename name ≡ name)
unfolding dirname basename
dirname-basename dir name size l two =
    let found = last_index-append b'/' dir name l in
    let absent = last_index-eq-none b'/' name l in
    let e : length dir + 1 ≡ suc (length dir) = omega arith in
    (
      rw (found, take-length) (ground arith),
      ground (arith, found, e, drop-suc dir name b'/', length-split dir name b'/'),
      rw absent (ground arith),
      rw (absent, basename),
    )
