-- ===== src/Tests/Log.antt =====
-- The log of gpsee_unix.c.
use gpsee.Base.{
  ℕ, ◌+◌, ◌≡◌, refl, ◌∷◌, ◌++◌, none, some, arith, ltb, if◌then◌else◌, length, take, replicate,
  length-replicate,
}
use gpsee.Base.Text.{codes}
use gpsee.Util.Copy.{nil, cons}
use gpsee.Log.{max_size, percent_m, expanded, make_log_format}
use gpsee.Log.Block.{filled}
use gpsee.Log.Format.{make_log_format_lem}

make_log_format_lem_example :
    make_log_format (codes "EIO") (codes "E: " ++ b'%' ∷ b'm' ∷ codes "!") (replicate 1024 9) ≡ (
      if ltb (length (codes "E: ")) max_size
      then (if ltb (length (codes "E: ") + length (codes "EIO") + length (codes "!")) max_size
          then some (expanded (filled (codes "E: " ++ codes "EIO" ++ codes "!")))
          else none)
      else some (expanded (take max_size (codes "E: "))))
unfolding percent_m
make_log_format_lem_example =
    make_log_format_lem (codes "E: ") (codes "EIO") (codes "!") (replicate 1024 9)
      (length-replicate {A = ℕ} 1024 9) refl
      (cons (omega arith) (cons (omega arith) (cons (omega arith) nil)))
      (cons (omega arith) (cons (omega arith) (cons (omega arith) nil)))
