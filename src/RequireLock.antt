-- ===== src/RequireLock.antt =====
-- `requireLock` and `requireUnlock` of gpsee_modules.c in a build with JS_THREADSAFE, one step for each
-- access of a word that threads share. A thread is its address, which is not NULL; NULL and
-- JSVAL_NULL are 0.
pub mod Exclusion
pub mod Progress
pub mod Uncontended
use gpsee.Base.{ℕ, zero, suc, ◌+◌, ◌-◌, ◌<◌, ◌≡◌, ◌≢◌, Bool, ◌==◌, if◌then◌else◌}

-- Where a thread stands: outside both functions; before the first compare-and-swap of `requireLock`;
-- in its loop; at `haveLock`; in `requireUnlock` before the depth is lowered, before it is compared
-- with 0, before the compare-and-swap; at GPSEE_NOT_REACHED.
pub data Place : Type 0 where
  outside entering spinning have_lock lowering testing clearing not_reached : Place

pub record Lock : Type 0 where
  -- `grt->requireLockThread` and `grt->requireLockDepth`
  pub thread : ℕ
  pub depth : ℕ
  pub place : ℕ → Place
  -- how many locks of the thread have been taken and not been given back
  pub held : ℕ → ℕ

abbrev pub update {ℓ} : {A : Type ℓ} → (ℕ → A) → ℕ → A → ℕ → A
update f t a u = if u == t then a else f u

abbrev pub go : Lock → ℕ → Place → Lock
go s t p = record s { place = update s.place t p }

-- The next access of the thread `t`, which stands at the place.
unfoldable pub access : ℕ → Lock → Place → Lock
access t s outside = s
access t s entering = if s.thread == t then go s t have_lock else go s t spinning
access t s spinning = if s.thread == 0 then record (go s t have_lock) { thread = t } else s
access t s have_lock = record (go s t outside) {
  depth = s.depth + 1;
  held = update s.held t (s.held t + 1);
}
access t s lowering = record (go s t testing) {
  depth = s.depth - 1;
  held = update s.held t (s.held t - 1);
}
access t s testing = if s.depth == 0 then go s t clearing else go s t outside
access t s clearing =
    if s.thread == t then record (go s t outside) { thread = 0 } else go s t not_reached
access t s not_reached = s

unfoldable pub advance : ℕ → Lock → Lock
advance t s = access t s (s.place t)

-- A thread calls `requireLock` at any time that it is outside, and `requireUnlock` if it holds a lock.
pub data Step (s : Lock) : Lock → Type 0 where
  lock : (t : ℕ) → t ≢ 0 → s.place t ≡ outside → Step s (go s t entering)
  unlock : (t : ℕ) → s.place t ≡ outside → 0 < s.held t → Step s (go s t lowering)
  run : (t : ℕ) → Step s (advance t s)

-- `memset` of the new runtime.
abbrev pub start : Lock
start = record { thread = 0; depth = 0; place = λ t. outside; held = λ t. 0 }

pub data Reach : Lock → Type 0 where
  here : Reach start
  next : {s u : Lock} → Reach s → Step s u → Reach u
