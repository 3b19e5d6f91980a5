-- ===== src/Runtime/Stores.antt =====
-- `gpsee_ds_create` and `gpsee_ds_destroy` of gpsee_datastores.c.
use gpsee.Base.{
  ℕ, ◌*◌, ◌≡◌, ◌≢◌, subst, Bool-cases, ◌⊎◌, ◌↔◌, refl, false, none, some, arith, if◌then◌else◌,
  Option-cases, inl, inr,
}
use gpsee.Platform.{Platform}
use gpsee.Monitor.{nil_monitor, get_nil_monitor, enter_monitor, leave_monitor}
use gpsee.DataStore.{Store, unlocked, otm_keys, has_flag, ds_create, slot_bytes, store_bytes}
use gpsee.DataStore.Slots.{count_key}
use gpsee.DataStore.Fresh.{IsBlank, ds_create-IsBlank, ds_create-none}
use gpsee.Runtime.{Grt, create_monitor, create, equip, destroy, destroy_monitor}
use gpsee.Runtime.Monitors.{destroy_monitor-create_monitor}

destroy_monitor_nil :
    {W : Type 0} (p : Platform W) (grt : Grt) (w : W) (j : ℕ)
    → count_key j (destroy_monitor p grt nil_monitor w).0.monitor_list.slots
      ≡ count_key j grt.monitor_list.slots
unfolding destroy_monitor
destroy_monitor_nil p grt w j = refl

module _ {W : Type 0} (p : Platform W) (grt : Grt) (flags hint : ℕ) (w : W) where
  -- `gpsee_ds_create` gives NULL exactly when a block is refused, for the store or for a number of
  -- slots that is not zero; then neither the runtime nor any monitor has changed.
  pub create-none : ((create p grt flags hint w).0 ≡ none) ↔ (
      ((p.grants store_bytes ≡ false) ⊎ ((hint ≢ 0) × (p.grants (slot_bytes * hint) ≡ false)))
      × ((create p grt flags hint w).1 ≡ grt)
      × ((create p grt flags hint w).2 ≡ w))
  unfolding create
  create-none = elim (Option-cases (ds_create p hint)) [
    | inl e ↦ ground (arith, ds_create-none p hint)
    | inr (s, e) ↦ ground (arith, ds_create-none p hint)
  ]

  -- A store that was created has the flags and the number of slots that were asked for, no data, and
  -- NULL under every key; with GPSEE_DS_UNLOCKED its monitor is the nil monitor and no monitor was
  -- touched, without it the monitor is a new one.
  pub create-IsBlank :
      {s : Store}
      → (create p grt flags hint w).0 ≡ some s
      → IsBlank p hint s
        × (s.flags ≡ flags)
        × (s.monitor
            ≡ (if has_flag flags unlocked then nil_monitor else (create_monitor p grt w).0))
        × ((create p grt flags hint w).1
            ≡ (if has_flag flags unlocked then grt else (create_monitor p grt w).1))
        × ((create p grt flags hint w).2
            ≡ (if has_flag flags unlocked then w else (create_monitor p grt w).2))
  unfolding create equip get_nil_monitor
  create-IsBlank {s} h = elim (Option-cases (ds_create p hint)) [
    | inl e ↦ absurd (ground arith)
    | inr (t, e) ↦ elim (Bool-cases (has_flag flags unlocked)) [
      | inl u ↦ (
        subst (IsBlank p hint) (ground arith) (ds_create-IsBlank p hint nil_monitor flags e),
        ground arith,
        ground arith,
        ground arith,
        ground arith,
      )
      | inr l ↦ (
        subst (IsBlank p hint) (ground arith)
            (ds_create-IsBlank p hint (create_monitor p grt w).0 flags e),
        ground arith,
        ground arith,
        ground arith,
        ground arith,
      )
    ]
  ]

  -- Destroying a store that has just been created, with any flags, leaves the list of the runtime
  -- with the monitors it had, each as often.
  pub destroy-create :
      {s : Store} (j : ℕ) (w' : W)
      → (create p grt flags hint w).0 ≡ some s
      → has_flag grt.monitor_list.flags otm_keys ≡ false
      → j ≢ 0
      → (create_monitor p grt w).0 ≢ 0
      → (create_monitor p grt w).0 ≢ nil_monitor
      → count_key (create_monitor p grt w).0 grt.monitor_list.slots ≡ 0
      → count_key j (destroy p (create p grt flags hint w).1 s w').0.monitor_list.slots
        ≡ count_key j grt.monitor_list.slots
  unfolding destroy
  destroy-create {s} j w' h plain posj pos real fresh =
      let made = create-IsBlank h in
      let back =
        destroy_monitor-create_monitor p grt w
          (leave_monitor p (create_monitor p grt w).0
            (enter_monitor p (create_monitor p grt w).0 w'))
          j plain posj pos real fresh in
      elim (Bool-cases (has_flag flags unlocked)) [
        | inl u ↦ rw (made.2, made.3, u) (destroy_monitor_nil p grt _ j)
        | inr l ↦ rw (made.2, made.3, l) back
      ]
