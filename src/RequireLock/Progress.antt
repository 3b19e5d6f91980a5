-- ===== src/RequireLock/Progress.antt =====
-- A thread that waits in `requireLock` of gpsee_modules.c, and the thread that has the lock.
use gpsee.Base.{ℕ, zero, suc, ◌+◌, ◌-◌, ◌*◌, ◌<◌, ◌≤◌, ◌≡◌, ◌≢◌, ◌⊎◌, inl, inr, refl, arith}
use native.Mathlib.Decide.{ℕ_discrete}
use gpsee.RequireLock.{
  Place, Lock, go, access, advance, Step, unlock, run, Reach, next, outside, entering, spinning,
  have_lock, lowering, testing, clearing, not_reached,
}
use gpsee.RequireLock.Exclusion.{IsKept, Reach-IsKept}

-- One access of the thread `t` or of the owner, or a call of `requireUnlock` by the owner.
pub data Turn (t : ℕ) (s : Lock) : Lock → Type 0 where
  gives : s.place s.thread ≡ outside → 0 < s.held s.thread → Turn t s (go s s.thread lowering)
  owner : Turn t s (advance s.thread s)
  waiter : Turn t s (advance t s)

Turn-Step : {t : ℕ} {s v : Lock} → Turn t s v → Step s v
Turn-Step (gives e h) = unlock _ e h
Turn-Step owner = run _
Turn-Step waiter = run _

-- At most so many such turns bring `t` to `haveLock` as the owner.
pub data Gets (t : ℕ) : ℕ → Lock → Type 0 where
  now : {n : ℕ} {s : Lock} → s.thread ≡ t → s.place t ≡ have_lock → Gets t n s
  later : {m n : ℕ} {s v : Lock} → m < n → Turn t s v → Gets t m v → Gets t n s

abbrev pub IsWaiting : ℕ → Lock → Type 0
IsWaiting t s = (s.place t ≡ entering) ⊎ (s.place t ≡ spinning)

-- `t` waits for a lock that another thread has.
record IsBehind (t : ℕ) (s : Lock) : Type 0 where
  reach : Reach s
  waits : IsWaiting t s
  owned : s.thread ≢ 0
  other : s.thread ≢ t

owner_IsKept : {t : ℕ} {s : Lock} → IsBehind t s → IsKept s s.thread
owner_IsKept b = Reach-IsKept b.reach _

module _ (t : ℕ) where
  Gets-spinning : (s : Lock) → s.thread ≡ 0 → s.place t ≡ spinning → Gets t 1 s
  unfolding advance access
  Gets-spinning s e p = later {m = 0} (omega arith) waiter (now (ground arith) (ground arith))

  Gets-free : (s : Lock) → t ≢ 0 → s.thread ≡ 0 → IsWaiting t s → Gets t 2 s
  unfolding advance access
  Gets-free s ne e (inl p) =
      later {m = 1} (omega arith) waiter (Gets-spinning (advance t s) (ground arith) (ground arith))
  Gets-free s ne e (inr p) = later {m = 0} (omega arith) waiter (now (ground arith) (ground arith))

  Gets-own : (s : Lock) → s.thread ≡ t → s.place t ≡ entering → Gets t 1 s
  unfolding advance access
  Gets-own s e p = later {m = 0} (omega arith) waiter (now (ground arith) (ground arith))

  waiting_thread : (s : Lock) → Reach s → IsWaiting t s → t ≢ 0
  waiting_thread s r w = ground (arith, Reach-IsKept r t)

  module _ (s : Lock) (b : IsBehind t s) where
    Gets-clearing : s.place s.thread ≡ clearing → Gets t 3 s
    unfolding advance access
    Gets-clearing e =
        let v : Lock = advance s.thread s in
        later {m = 2} (omega arith) owner
          (Gets-free v (waiting_thread s b.reach b.waits) (ground (arith, b)) (ground (arith, b)))

    IsBehind-advance :
        (s.place s.thread ≡ entering)
          ⊎ (s.place s.thread ≡ have_lock)
          ⊎ (s.place s.thread ≡ lowering)
          ⊎ (s.place s.thread ≡ testing)
        → IsBehind t (advance s.thread s)
    unfolding advance access
    IsBehind-advance e = record {
      reach = next b.reach (Turn-Step {t = t} owner);
      waits = ground (arith, b);
      owned = ground (arith, b);
      other = ground (arith, b);
    }

  -- What is proved by induction on the number of locks that the owner has yet to give back.
  abbrev GetsBehind : ℕ → Type 0
  GetsBehind n =
      (s : Lock)
      → IsBehind t s
      → s.place s.thread ≡ outside
      → s.held s.thread ≡ n
      → Gets t (3 * n + 3) s

  module _ (s : Lock) (b : IsBehind t s) where
    Gets-testing :
        (n : ℕ)
        → GetsBehind n
        → s.place s.thread ≡ testing
        → s.held s.thread ≡ n
        → Gets t (3 * n + 4) s
    unfolding advance access
    Gets-testing zero given e h = later {m = 3} (omega arith) owner (
        Gets-clearing (advance s.thread s) (IsBehind-advance s b (inr (inr (inr e))))
          (ground (arith, owner_IsKept b)))
    Gets-testing (suc n) given e h = later {m = 3 * suc n + 3} (omega arith) owner (
        given (advance s.thread s) (IsBehind-advance s b (inr (inr (inr e))))
          (ground (arith, owner_IsKept b)) (ground (arith, owner_IsKept b)))

  module _ (s : Lock) (b : IsBehind t s) where
    Gets-lowering :
        (n : ℕ)
        → GetsBehind n
        → s.place s.thread ≡ lowering
        → s.held s.thread ≡ n + 1
        → Gets t (3 * n + 5) s
    unfolding advance access
    Gets-lowering n given e h = later {m = 3 * n + 4} (omega arith) owner (
        Gets-testing (advance s.thread s) (IsBehind-advance s b (inr (inr (inl e)))) n given
          (ground arith) (ground arith))

    IsBehind-unlock :
        s.place s.thread ≡ outside → 0 < s.held s.thread → IsBehind t (go s s.thread lowering)
    IsBehind-unlock e h = record {
      reach = next b.reach (Turn-Step {t = t} (gives e h));
      waits = ground (arith, b);
      owned = b.owned;
      other = b.other;
    }

  Gets-outside : (n : ℕ) → GetsBehind n
  Gets-outside zero s b e h = absurd (ground (arith, (owner_IsKept b).keeps refl b.owned e))
  Gets-outside (suc n) s b e h = later {m = 3 * n + 5} (omega arith) (gives e (omega arith)) (
      Gets-lowering (go s s.thread lowering) (IsBehind-unlock s b e (omega arith)) n
        (Gets-outside n) (ground arith) (ground arith))

  Gets-have_lock :
      (s : Lock) (n : ℕ)
      → IsBehind t s
      → s.place s.thread ≡ have_lock
      → s.held s.thread ≡ n
      → Gets t (3 * n + 7) s
  unfolding advance access
  Gets-have_lock s n b e h = later {m = 3 * suc n + 3} (omega arith) owner (
      Gets-outside (suc n) (advance s.thread s) (IsBehind-advance s b (inr (inl e))) (ground arith)
        (ground arith))

  Gets-le : {m n : ℕ} {s : Lock} → m ≤ n → Gets t m s → Gets t n s
  Gets-le le (now e p) = now e p
  Gets-le le (later h u g) = later (omega arith) u g

  Gets-at :
      (p : Place) (s : Lock) → IsBehind t s → s.place s.thread ≡ p → Gets t (3 * s.depth + 8) s
  unfolding advance access
  Gets-at outside s b e =
      Gets-le (ground (arith, owner_IsKept b)) (Gets-outside (s.held s.thread) s b e refl)
  Gets-at entering s b e = later {m = 3 * s.depth + 7} (omega arith) owner (
      Gets-have_lock (advance s.thread s) s.depth (IsBehind-advance s b (inl e)) (ground arith)
        (ground (arith, owner_IsKept b)))
  Gets-at spinning s b e = absurd ((owner_IsKept b).waits e refl)
  Gets-at have_lock s b e =
      Gets-le (ground (arith, owner_IsKept b)) (Gets-have_lock s (s.held s.thread) b e refl)
  Gets-at lowering s b e =
      Gets-le (ground (arith, owner_IsKept b)) (
        Gets-lowering s b (s.held s.thread - 1) (Gets-outside _) e (ground (arith, owner_IsKept b)))
  Gets-at testing s b e =
      Gets-le (ground (arith, owner_IsKept b))
        (Gets-testing s b (s.held s.thread) (Gets-outside _) e refl)
  Gets-at clearing s b e = Gets-le (omega arith) (Gets-clearing s b e)
  Gets-at not_reached s b e = absurd ((owner_IsKept b).reached e)

-- In every state that calls of `requireLock` and `requireUnlock` reach, in any interleaving, a thread
-- that waits in `requireLock` can have the lock within three turns for each level of the depth and
-- eight more: turns of its own and of the owner, who makes no call but of `requireUnlock`.
pub waiting-Gets : {s : Lock} (t : ℕ) → Reach s → IsWaiting t s → Gets t (3 * s.depth + 8) s
waiting-Gets {s} t r w = elim (ℕ_discrete s.thread 0) [
  | yes free ↦ Gets-le t (omega arith) (Gets-free t s (waiting_thread t s r w) free w)
  | no owned ↦ elim (ℕ_discrete s.thread t) [
    | yes own ↦ Gets-le t (omega arith) (Gets-own t s own (ground (arith, Reach-IsKept r t)))
    | no other ↦ Gets-at t _ s (record { reach = r; waits = w; owned = owned; other = other }) refl
  ]
]
