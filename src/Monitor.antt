-- ===== src/Monitor.antt =====
-- gpsee_monitors.c, the calls that need no runtime: the nil monitor, entering and leaving.
-- Assertions are those of a release build, where they do nothing.
use gpsee.Base.{ℕ, ◌==◌, if◌then◌else◌, ◌≡◌, refl, arith}
use gpsee.Platform.{Platform}

-- The address of the string that stands for the absence of a monitor; NULL is 0.
abbrev pub nil_monitor : ℕ
nil_monitor = 1

unfoldable pub get_nil_monitor : ℕ
get_nil_monitor = nil_monitor

module _ {W : Type 0} (p : Platform W) where
  unfoldable pub enter_monitor : ℕ → W → W
  enter_monitor m w = if m == nil_monitor then w else p.enter m w

  unfoldable pub leave_monitor : ℕ → W → W
  leave_monitor m w = if m == nil_monitor then w else p.exit m w

  -- Leaving a monitor undoes entering it, for the nil monitor too.
  pub leave_monitor-enter_monitor : (m : ℕ) (w : W) → leave_monitor m (enter_monitor m w) ≡ w
  unfolding enter_monitor leave_monitor
  leave_monitor-enter_monitor m w = ground (arith, p.exit-enter m w)

  pub enter_monitor-nil : (w : W) → enter_monitor nil_monitor w ≡ w
  unfolding enter_monitor
  enter_monitor-nil w = refl

  pub leave_monitor-nil : (w : W) → leave_monitor nil_monitor w ≡ w
  unfolding leave_monitor
  leave_monitor-nil w = refl
