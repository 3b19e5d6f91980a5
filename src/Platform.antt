-- ===== src/Platform.antt =====
-- What the code takes from NSPR and from the C library: `PR_EnterMonitor` and its companions of
-- prmon.h, and whether the allocator grants a block. The world `W` is whatever these calls act on.
use gpsee.Base.{ℕ, ◌≡◌, Bool}

pub record Platform (W : Type 0) : Type 0 where
  -- `malloc`, `calloc` and `realloc` of so many bytes succeed
  pub grants : ℕ → Bool
  pub enter : ℕ → W → W
  pub exit : ℕ → W → W
  -- a monitor that was entered once more than before is left by one exit
  pub exit-enter : (m : ℕ) (w : W) → exit m (enter m w) ≡ w
  pub new_monitor : W → ℕ × W
  pub destroy : ℕ → W → W
