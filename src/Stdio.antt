-- ===== src/Stdio.antt =====
-- The streams of stdio and the widths of numbers, as gpsee_xdrfile.c uses them. A stream is its file and
-- where it stands.
use gpsee.Base.{
  ℕ, ◌+◌, ◌-◌, ◌%◌, ◌^◌, min, Bool, true, false, List, ◌++◌, ltb, ◌==◌, if◌then◌else◌, length, take,
  drop, replicate,
}

pub data Whence : Type 0 where
  seek_set : Whence
  seek_cur : Whence
  seek_end : Whence
  other_whence : Whence

-- A stream of stdio: the bytes of its file, where it stands, how long the medium lets the file grow.
pub record File : Type 0 where
  pub content : List ℕ
  pub at : ℕ
  pub room : ℕ

-- The bytes of a file with some of them written over, and zeros before them where it was shorter.
unfoldable pub overwritten : List ℕ → ℕ → List ℕ → List ℕ
overwritten content at s =
    take at (content ++ replicate (at - length content) 0) ++ s ++ drop (at + length s) content

-- What `fwrite` returns, and the stream.
unfoldable pub fwrite : List ℕ → File → ℕ × File
fwrite s f =
    let n = min (length s) (f.room - f.at) in
    if n == 0
    then (0, f)
    else (n, record f { content = overwritten f.content f.at (take n s); at = f.at + n })

-- What `fread` puts into the buffer, and the stream.
unfoldable pub fread : ℕ → File → List ℕ × File
fread n f = let s = take n (drop f.at f.content) in (s, record f { at = f.at + length s })

abbrev pub u64 : ℕ → ℕ
u64 n = n % 2 ^ 64

-- The bits of an int as those of a `size_t`.
unfoldable pub extend : ℕ → ℕ
extend n = if ltb n (2 ^ 31) then n else 2 ^ 64 - 2 ^ 32 + n

-- A file offset below 0 is refused.
unfoldable pub fseek : ℕ → Whence → File → Bool × File
fseek offset whence f =
    let to = u64 (
      extend offset + (elim whence [
        | seek_set ↦ 0
        | seek_cur ↦ f.at
        | seek_end ↦ length f.content
        | other_whence ↦ 0
      ])) in
    if ltb to (2 ^ 63) then (true, record f { at = to }) else (false, f)
