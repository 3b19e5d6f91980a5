-- ===== src/RequireLock/Uncontended.antt =====
-- One thread in `requireLock` and `requireUnlock` of gpsee_modules.c while no other runs.
use gpsee.Base.{ℕ, ◌+◌, ◌≡◌, ◌≢◌, ◌⊎◌, arith}
use gpsee.RequireLock.{Lock, go, access, advance, Reach, outside, entering, lowering}
use gpsee.RequireLock.Exclusion.{Reach-IsKept}

-- The whole of each function; an access from outside is none.
unfoldable pub require_lock : ℕ → Lock → Lock
unfolding advance access
require_lock t s = advance t (advance t (advance t (go s t entering)))

unfoldable pub require_unlock : ℕ → Lock → Lock
unfolding advance access
require_unlock t s = advance t (advance t (advance t (go s t lowering)))

-- In a reachable state in which the lock is free or the thread's own and the thread is outside,
-- `requireLock` returns with the lock: the thread owns it one level deeper.
pub require_lock_lem :
    {s : Lock} (t : ℕ)
    → Reach s
    → t ≢ 0
    → s.place t ≡ outside
    → (s.thread ≡ 0) ⊎ (s.thread ≡ t)
    → ((require_lock t s).thread ≡ t)
      × ((require_lock t s).depth ≡ s.depth + 1)
      × ((require_lock t s).held t ≡ s.held t + 1)
      × ((require_lock t s).place t ≡ outside)
unfolding require_lock
require_lock_lem {s} t r ne e free = ground (arith, Reach-IsKept r t)

-- From such a state, `requireUnlock` after `requireLock` leaves every word as it was before.
pub require_unlock-require_lock :
    {s : Lock} (t u : ℕ)
    → Reach s
    → t ≢ 0
    → s.place t ≡ outside
    → (s.thread ≡ 0) ⊎ (s.thread ≡ t)
    → let back = require_unlock t (require_lock t s) in
      (back.thread ≡ s.thread)
      × (back.depth ≡ s.depth)
      × (back.held u ≡ s.held u)
      × (back.place u ≡ s.place u)
unfolding require_lock require_unlock
require_unlock-require_lock {s} t u r ne e free = ground (arith, Reach-IsKept r t, Reach-IsKept r 0)
