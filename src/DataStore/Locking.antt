-- ===== src/DataStore/Locking.antt =====
-- The monitor of a data store across the operations of gpsee_datastores.c.
use gpsee.Base.{ℕ, ◌<◌, ◌≡◌, ◌≢◌, ◌↔◌, true, List, [], ◌∷◌, arith, ◌==◌, Bool-cases, inl, inr}
use gpsee.Platform.{Platform}
use gpsee.Monitor.{leave_monitor, leave_monitor-enter_monitor}
use gpsee.DataStore.{Slot, Store, any_key, grow, get, put, remove, match_remove, empty, has_data}
use gpsee.DataStore.Slots.{count_key}

any_key-count : (ss : List Slot) (k : ℕ) → k ≢ 0 → 0 < count_key k ss → any_key ss ≡ true
unfolding any_key count_key
any_key-count [] k pos h = absurd (omega arith)
any_key-count (s ∷ ss) k pos h = ground (arith, any_key-count ss k pos)

any_key_found : (ss : List Slot) → any_key ss ≡ true → (k : ℕ) × (k ≢ 0) × (0 < count_key k ss)
unfolding any_key count_key
any_key_found [] h = absurd (cc)
any_key_found (s ∷ ss) h = elim (Bool-cases (s.key == 0)) [
  | inl e ↦ let (k, pos, c) = any_key_found ss (ground arith) in (k, pos, omega arith)
  | inr e ↦ (s.key, ground arith, ground arith)
]

module _ {W : Type 0} (p : Platform W) (s : Store) (k v : ℕ) (w : W) where
  -- Each of get, put, remove, match_remove and empty leaves the monitor that it entered, on every
  -- path: the world of monitors is as it was before.
  pub operations_leave_monitor :
      ((get p s k w).1 ≡ w)
      × ((put p s k v w).2 ≡ w)
      × ((remove p s k w).2 ≡ w)
      × ((match_remove p s k v w).2 ≡ w)
      × ((empty p s w).1 ≡ w)
  unfolding get put grow remove match_remove empty
  operations_leave_monitor =
      let back = leave_monitor-enter_monitor p s.monitor w in
      (back, ground (arith, back), back, back, back)

module _ {W : Type 0} (p : Platform W) (s : Store) (w : W) where
  -- `gpsee_ds_hasData` answers whether some slot has a key that is not NULL, and returns inside the
  -- store's monitor: it takes one more leave to be back where it started.
  pub has_data_lem :
      (((has_data p s w).0 ≡ true) ↔ ((k : ℕ) × (k ≢ 0) × (0 < count_key k s.slots)))
      × (leave_monitor p s.monitor (has_data p s w).1 ≡ w)
  unfolding has_data
  has_data_lem = (
    (any_key_found s.slots, λ (k, pos, h). any_key-count s.slots k pos h),
    leave_monitor-enter_monitor p s.monitor w,
  )
