-- ===== src/Log.antt =====
-- gpsee_unix.c: `gpsee_makeLogFormat` and `gpsee_log`. A C string is the list of its bytes before the NUL,
-- and `none` is a read or a write past the buffer.
pub mod Block
pub mod Format
pub mod Message
use Prim.Native.Nat.{bit_and}
use gpsee.Base.{
  ℕ, zero, suc, ◌+◌, ◌-◌, min, Bool, true, false, not, ◌&&◌, ◌||◌, List, [], ◌∷◌, ◌++◌, Option,
  none, some, ltb, leb, ◌==◌, if◌then◌else◌, length, take, drop, replicate,
}
use gpsee.Util.{◌>>=◌, poke, string_end}

-- GPSEE_MAX_LOG_MESSAGE_SIZE
abbrev pub max_size : ℕ
max_size = 1024

-- Does the text begin with "%m"?
abbrev pub begins : List ℕ → Bool
begins [] = false
begins (c ∷ []) = false
begins (c ∷ d ∷ s) = (c == b'%') && (d == b'm')

-- `strstr(fmt, "%m")`, as an offset.
unfoldable pub percent_m : List ℕ → Option ℕ
percent_m [] = none
percent_m (c ∷ s) =
    let rest = percent_m s in
    if begins (c ∷ s) then some 0 else (elim rest [ none ↦ none | some k ↦ some (suc k) ])

-- What `strncpy` of so many bytes writes.
abbrev pub padded : ℕ → List ℕ → List ℕ
padded n s = take n s ++ replicate (n - length s) 0

-- Bytes written into a block from an offset on.
unfoldable pub write_at : ℕ → List ℕ → List ℕ → Option (List ℕ)
write_at at bytes block =
    if leb (at + length bytes) (length block)
    then some (take at block ++ bytes ++ drop (at + length bytes) block)
    else none

-- Behind the copy of what stands before the "%m": `rest` is what stands behind it.
unfoldable pub add_message : ℕ → List ℕ → List ℕ → List ℕ → Option (List ℕ)
unfolding write_at string_end
add_message amount message rest block = do
  named ← write_at amount (padded (max_size - amount) message) block
  end ← string_end named
  write_at end (take (max_size - end) rest ++ 0 ∷ []) named

-- The result is the buffer, or `fmt` itself; `message` is what `strerror` gives.
pub data Made : Type 0 where
  as_given : Made
  expanded : List ℕ → Made

-- At a "%m", or without one.
unfoldable pub expand : List ℕ → List ℕ → List ℕ → Option ℕ → Option Made
unfolding write_at add_message
expand message fmt block none = some as_given
expand message fmt block (some s) = do
  copied ← write_at 0 (take (min max_size s) fmt) block
  (if ltb s max_size
      then (add_message s message (drop (s + 2) fmt) copied >>= λ b. some (expanded b))
      else some (expanded copied))

abbrev pub make_log_format : List ℕ → List ℕ → List ℕ → Option Made
make_log_format message fmt block = expand message fmt block (percent_m fmt)

abbrev pub log_info : ℕ
log_info = 6

abbrev pub log_debug : ℕ
log_debug = 7

-- The switch on `gpsee_verbosity(0)`.
unfoldable pub by_verbosity : ℕ → ℕ → Bool
by_verbosity verbosity pri =
    if verbosity == 0
    then false
    else (if verbosity == 1
        then not ((pri == log_debug) || (pri == log_info))
        else (if verbosity == 2 then not (pri == log_debug) else true))

-- What is given out: the text for standard error, if it is printed there, and the one for `syslog`.
pub record Logged : Type 0 where
  pub stderr : Option (List ℕ)
  pub syslog : List ℕ

-- The text that is shown: `text` is what the format and its arguments come to, and `vsnprintf` puts
-- its first 1023 bytes and a NUL into the buffer.
unfoldable pub shorten : List ℕ → Option (List ℕ)
unfolding poke
shorten text =
    if leb max_size (length text)
    then (do
      one ← poke (max_size - 3) b'.' (take (max_size - 1) text ++ 0 ∷ [])
      two ← poke (max_size - 2) b'.' one
      three ← poke (max_size - 1) b'.' two
      poke max_size 0 three)
    else some text

-- `has_context` is whether `cx` is not NULL; the first bit of `extra` suppresses the terminal.
unfoldable pub log : Bool → ℕ → ℕ → ℕ → List ℕ → Option Logged
unfolding by_verbosity shorten
log has_context extra verbosity pri text = shorten text >>= λ shown. some (record {
  stderr =
      if has_context && (bit_and extra 1 == 0) && by_verbosity verbosity pri
      then some shown
      else none;
  syslog = shown;
})
