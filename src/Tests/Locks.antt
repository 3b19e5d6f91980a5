-- ===== src/Tests/Locks.antt =====
-- Two threads at the require lock of gpsee_modules.c.
use gpsee.Base.{ℕ, ◌<◌, ◌≡◌, ◌≢◌, inr, refl, arith}
use gpsee.RequireLock.{
  Lock, Reach, here, next, lock, run, start, go, advance, access, outside, entering, spinning,
}
use gpsee.RequireLock.Exclusion.{mutual_exclusion}
use gpsee.RequireLock.Progress.{Gets, waiting-Gets}

-- Thread 1 has the lock.
abbrev owned : Lock
owned = advance 1 (advance 1 (advance 1 (go start 1 entering)))

owned-Reach : Reach owned
owned-Reach = next (next (next (next here (lock 1 (omega arith) refl)) (run 1)) (run 1)) (run 1)

-- Then thread 2 wants it.
abbrev contended : Lock
contended = advance 2 (go owned 2 entering)

outside_owned : (t : ℕ) → t ≢ 1 → owned.place t ≡ outside
unfolding advance access
outside_owned t ne = ground arith

contended-Reach : Reach contended
contended-Reach =
    next (next owned-Reach (lock 2 (omega arith) (outside_owned 2 (omega arith)))) (run 2)

held_contended : 0 < contended.held 1
unfolding advance access
held_contended = omega arith

spins : contended.place 2 ≡ spinning
unfolding advance access
spins = refl

mutual_exclusion_example :
    let one : ℕ = 1 in (one ≡ one) × (contended.thread ≡ 1) × (contended.depth ≡ contended.held 1)
mutual_exclusion_example = mutual_exclusion 1 1 contended-Reach held_contended held_contended

waiting-Gets_example : Gets 2 11 contended
unfolding advance access
waiting-Gets_example = waiting-Gets 2 contended-Reach (inr spins)
