-- ===== src/RequireLock/Exclusion.antt =====
-- At most one thread holds the lock of gpsee_modules.c, whatever the interleaving.
use gpsee.Base.{ℕ, ◌<◌, ◌≡◌, ◌≢◌, refl, Bool, true, false, arith}
use gpsee.RequireLock.{
  Place, Lock, go, access, advance, Step, lock, unlock, run, start, Reach, here, next, outside,
  entering, spinning, have_lock, lowering, testing, clearing, not_reached,
}

-- Behind the swap that takes the lock, and before the one that gives it back.
abbrev pub inside : Place → Bool
inside have_lock = true
inside lowering = true
inside testing = true
inside clearing = true
inside _ = false

-- What is true of each thread.
pub record IsKept (s : Lock) (t : ℕ) : Type 0 where
  pub owns : s.thread ≢ t → (inside (s.place t) ≡ false) × (s.held t ≡ 0)
  pub counts : s.thread ≡ t → (s.depth ≡ s.held t)
  pub lowers : s.place t ≡ lowering → 0 < s.held t
  pub clears : s.place t ≡ clearing → s.held t ≡ 0
  pub reached : s.place t ≢ not_reached
  pub keeps : s.thread ≡ t → t ≢ 0 → s.place t ≡ outside → 0 < s.held t
  pub waits : s.place t ≡ spinning → s.thread ≢ t
  pub quiet : t ≡ 0 → (s.place t ≡ outside) × (s.held t ≡ 0)

IsKept-start : (t : ℕ) → IsKept start t
IsKept-start t = record {
  owns = λ ne. (refl, refl);
  counts = λ e. refl;
  lowers = λ e. cc;
  clears = λ e. refl;
  reached = λ e. cc;
  keeps = λ e ne o. absurd (ne (omega arith));
  waits = λ e. cc;
  quiet = λ e. (refl, refl);
}

module _ (s : Lock) (t u : ℕ) where
  IsKept-lock : t ≢ 0 → s.place t ≡ outside → IsKept s t → IsKept s u → IsKept (go s t entering) u
  IsKept-lock ne e kt ku = ground arith

  IsKept-unlock :
      s.place t ≡ outside → 0 < s.held t → IsKept s t → IsKept s u → IsKept (go s t lowering) u
  IsKept-unlock e h kt ku = ground arith

  IsKept-access :
      (p : Place) → s.place t ≡ p → IsKept s t → IsKept s u → IsKept s 0 → IsKept (access t s p) u
  unfolding access
  IsKept-access outside e kt ku k0 = ku
  IsKept-access p e kt ku k0 = ground arith

Step-IsKept : {s v : Lock} → Step s v → ((t : ℕ) → IsKept s t) → (u : ℕ) → IsKept v u
unfolding advance
Step-IsKept {s} (lock t ne e) kept u = IsKept-lock s t u ne e (kept t) (kept u)
Step-IsKept {s} (unlock t e h) kept u = IsKept-unlock s t u e h (kept t) (kept u)
Step-IsKept {s} (run t) kept u = IsKept-access s t u (s.place t) refl (kept t) (kept u) (kept 0)

pub Reach-IsKept : {s : Lock} → Reach s → (t : ℕ) → IsKept s t
Reach-IsKept here = IsKept-start
Reach-IsKept (next r st) = Step-IsKept st (Reach-IsKept r)

module _ {s : Lock} (t u : ℕ) (r : Reach s) where
  -- In every state that calls of `requireLock` and `requireUnlock` reach, in any interleaving, two
  -- threads that hold the lock are one, `requireLockThread` is that thread, and `requireLockDepth`
  -- is the number of locks that it has taken and not given back.
  pub mutual_exclusion :
      0 < s.held t → 0 < s.held u → (t ≡ u) × (s.thread ≡ t) × (s.depth ≡ s.held t)
  mutual_exclusion a b = ground (arith, Reach-IsKept r t, Reach-IsKept r u)

  -- In every such state no thread is at GPSEE_NOT_REACHED, and none waits in the loop for a lock
  -- that is its own.
  no_self_deadlock : (s.place t ≢ not_reached) × ¬ ((s.place t ≡ spinning) × (s.thread ≡ t))
  no_self_deadlock = let k = Reach-IsKept r t in (k.reached, λ (a, b). k.waits a b)
