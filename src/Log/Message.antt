-- ===== src/Log/Message.antt =====
-- `gpsee_log` (gpsee_unix.c): what is shown where.
use Prim.Native.Nat.{bit_and}
use gpsee.Base.{
  length-take, ℕ, ◌+◌, inl, inr, ◌-◌, ◌≤◌, ◌<◌, ◌≡◌, refl, Bool, true, not, ◌&&◌, List, [], ◌∷◌,
  ◌++◌, none, some, arith, ltb, leb, ◌==◌, if◌then◌else◌, Bool-cases, length, take, set, length-set,
  length-append,
}
use gpsee.Util.Copy.{poke_inside, poke_past_end}
use gpsee.Log.{max_size, log_debug, by_verbosity, shorten, log}

-- The verbosity lets through the priorities of syslog up to four above it.
by_verbosity_lem :
    (verbosity pri : ℕ)
    → pri ≤ log_debug
    → by_verbosity verbosity pri ≡ (not (verbosity == 0) && leb pri (verbosity + 4))
unfolding by_verbosity
by_verbosity_lem verbosity pri le = ground (arith, le)

shorten_fits : (text : List ℕ) → length text < max_size → shorten text ≡ some text
unfolding shorten
shorten_fits text lt = ground (arith, lt)

shorten_past : (text : List ℕ) → max_size ≤ length text → shorten text ≡ none
unfolding shorten
shorten_past text le =
    let long : leb max_size (length text) ≡ true = ground (arith, le) in
    let buf : List ℕ = take (max_size - 1) text ++ 0 ∷ [] in
    let len : length buf ≡ max_size = omega (
      arith,
      length-append (take (max_size - 1) text) (0 ∷ []),
      length-take (max_size - 1) text (omega (arith, le)),
    ) in
    let one = set buf (max_size - 3) b'.' in
    let len₁ = length-set buf (max_size - 3) b'.' in
    let two = set one (max_size - 2) b'.' in
    let len₂ = length-set one (max_size - 2) b'.' in
    let three = set two (max_size - 1) b'.' in
    let len₃ = length-set two (max_size - 1) b'.' in
    rw
      (
        shorten,
        long,
        poke_inside (max_size - 3) b'.' buf (omega (arith, len)),
        poke_inside (max_size - 2) b'.' one (omega (arith, len, len₁)),
        poke_inside (max_size - 1) b'.' two (omega (arith, len, len₁, len₂)),
        poke_past_end max_size 0 three (omega (arith, len, len₁, len₂, len₃)),
      )
      refl

-- The verbosity lets through the priorities of syslog up to four above it, if the terminal is not
-- suppressed. A message that is shorter than the buffer is shown whole; any other is written behind
-- the buffer on its way to be shortened.
pub log_lem :
    (has_context : Bool) (extra verbosity pri : ℕ) (text : List ℕ)
    → pri ≤ log_debug
    → log has_context extra verbosity pri text ≡ (
        if ltb (length text) max_size
        then some (record {
          stderr =
              if has_context
                && (bit_and extra 1 == 0)
                && not (verbosity == 0)
                && leb pri (verbosity + 4)
              then some text
              else none;
          syslog = text;
        })
        else none)
unfolding log
log_lem has_context extra verbosity pri text le = elim (Bool-cases (ltb (length text) max_size)) [
  | inl h ↦
      rw (h, log, shorten_fits text (ground (arith, h)), by_verbosity_lem verbosity pri le)
        (ground arith)
  | inr h ↦ rw (h, log, shorten_past text (ground (arith, h))) refl
]
