-- ===== src/Log/Format.antt =====
-- `gpsee_makeLogFormat` (gpsee_unix.c): when the expanded format fits the buffer.
use mathlib.Core.List.{append-nil}
use gpsee.Base.{
  ℕ, ◌+◌, ◌-◌, ◌≤◌, ◌<◌, ◌≡◌, refl, ◌∙◌, inl, inr, min, Bool, true, false, List, ◌∷◌, ◌++◌, none,
  some, arith, ltb, if◌then◌else◌, Bool-cases, length, take, drop, length-append, length-drop,
  drop-append, take_front, length-take, drop_past,
}
use gpsee.Util.{◌>>=◌}
use gpsee.Util.Copy.{IsText}
use gpsee.Util.Path.{take-length}
use gpsee.Log.{max_size, percent_m, add_message, expanded, expand, make_log_format}
use gpsee.Log.Block.{
  filled, rest_behind, write_at-padded, padded_fits, padded_past, string_end-filled,
  string_end-none, IsText-append, IsText-take, write_at-front,
}

-- Behind the copy of the front: the message and the rest.
add_message_lem :
    (front message rest block : List ℕ)
    → length front < max_size
    → length (front ++ block) ≡ max_size
    → IsText front
    → IsText message
    → add_message (length front) message rest (front ++ block) ≡ (
        if ltb (length front + length message + length rest) max_size
        then some (filled (front ++ message ++ rest))
        else none)
unfolding add_message
add_message_lem front message rest block lt len text told =
    let both = IsText-append text told in
    let sum = length-append front message in
    elim (Bool-cases (ltb (length front + length message) max_size)) [
      | inl h ↦
          let fits : length (front ++ message) < max_size = ground (arith, h, sum) in
          rw
            (
              add_message,
              write_at-padded front message block len,
              padded_fits front message (ground (arith, h)),
              string_end-filled (front ++ message) both fits,
            )
            (rest_behind (front ++ message) rest fits ∙ rw sum refl)
      | inr h ↦
          let long : max_size ≤ length front + length message = ground (arith, h) in
          let past : ltb (length front + length message + length rest) max_size ≡ false =
            ground (arith, long) in
          let n = max_size - length front in
          rw
            (
              add_message,
              write_at-padded front message block len,
              padded_past front message long,
              string_end-none (front ++ take n message) (IsText-append text (IsText-take n told)),
              past,
            )
            refl
    ]

ends :
    (test : Bool) (text : List ℕ)
    → ((if test then some text else none) >>= λ b. some (expanded b))
      ≡ (if test then some (expanded text) else none)
ends true text = refl
ends false text = refl

-- With a buffer of the size that is asked for and a first "%m" behind `pre`, gpsee_makeLogFormat gives
-- the format with the message in its place, if this and a NUL fit the buffer, which is then filled up
-- with NULs; if they do not fit, it reads or writes behind the buffer. If the "%m" stands behind the
-- whole size, the buffer is filled with what stands before it, without a NUL.
pub make_log_format_lem :
    (pre message rest block : List ℕ)
    → length block ≡ max_size
    → percent_m (pre ++ b'%' ∷ b'm' ∷ rest) ≡ some (length pre)
    → IsText pre
    → IsText message
    → make_log_format message (pre ++ b'%' ∷ b'm' ∷ rest) block ≡ (
        if ltb (length pre) max_size
        then (if ltb (length pre + length message + length rest) max_size
            then some (expanded (filled (pre ++ message ++ rest)))
            else none)
        else some (expanded (take max_size pre)))
unfolding expand
make_log_format_lem pre message rest block len found text told =
    elim (Bool-cases (ltb (length pre) max_size)) [
      | inl h ↦
          let lt : length pre < max_size = ground (arith, h) in
          let least : min max_size (length pre) ≡ length pre = omega (arith, lt) in
          let behind = drop (length pre) block in
          let whole : length (pre ++ behind) ≡ max_size =
            omega (arith, length-append pre behind, length-drop (length pre) block, len, lt) in
          let at_end = drop-append pre (b'%' ∷ b'm' ∷ rest) 2 in
          rw
            (
              found,
              expand,
              least,
              take-length pre,
              write_at-front pre block (omega (arith, lt, len)),
              h,
              at_end,
              add_message_lem pre message rest behind lt whole text told,
            )
            (ends (ltb (length pre + length message + length rest) max_size) _)
      | inr h ↦
          let le : max_size ≤ length pre = ground (arith, h) in
          let least : min max_size (length pre) ≡ max_size = omega (arith, le) in
          let size = length-take max_size pre le in
          rw
            (
              found,
              expand,
              least,
              take_front max_size pre (b'%' ∷ b'm' ∷ rest) le,
              write_at-front (take max_size pre) block (omega (arith, size, len)),
              drop_past (length (take max_size pre)) block (omega (arith, size, len)),
              append-nil (take max_size pre),
              h,
            )
            refl
    ]
