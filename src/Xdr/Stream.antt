-- ===== src/Xdr/Stream.antt =====
-- The streams below an XDR file (gpsee_xdrfile.c): writes at the end, reads, the bytes of a uint32.
use gpsee.Base.{
  take_all, drop_past, ℕ, suc, ◌+◌, ◌-◌, ◌^◌, ◌≤◌, ◌<◌, min, ◌≡◌, sym, ap, false, List, [], ◌∷◌,
  ◌++◌, arith, ◌==◌, length, length-append,
}
use mathlib.Core.List.{append-nil}
use gpsee.Xdr.{File, overwritten, fwrite, extend, word, value}

-- A stream that stands at the end of its file.
abbrev pub ended : List ℕ → ℕ → File
ended content room = record { content = content; at = length content; room = room }

overwritten_end : (content s : List ℕ) → overwritten content (length content) s ≡ content ++ s
unfolding overwritten
overwritten_end content s =
    let none_missing : length content - length content ≡ 0 = omega arith in
    rw
      (
        none_missing,
        append-nil content,
        take_all content,
        drop_past (length content + length s) content (omega arith),
      )
      (append-nil (content ++ s))

pub fwrite-ended :
    (content s : List ℕ) (room : ℕ)
    → length content + length s ≤ room
    → fwrite s (ended content room) ≡ (length s, ended (content ++ s) room)
unfolding fwrite
fwrite-ended content [] room le =
    let nothing : min 0 (room - length content) ≡ 0 = omega arith in
    rw (nothing) (ap (λ (t : List ℕ). (0, ended t room)) (sym (append-nil content)))
fwrite-ended content (c ∷ s) room le =
    let fits : min (suc (length s)) (room - length content) ≡ suc (length s) = omega (arith, le) in
    let some_fit : (suc (length s) == 0) ≡ false = ground arith in
    rw (fits, take_all s, overwritten_end content (c ∷ s), length-append content (c ∷ s), some_fit)

pub extend_small : (n : ℕ) → n < 2 ^ 31 → extend n ≡ n
unfolding extend
extend_small n lt = ground (arith, lt)

pub value-word : (v : ℕ) → v < 2 ^ 32 → value (word v) ≡ v
unfolding value word
value-word v lt = omega (arith, lt)
