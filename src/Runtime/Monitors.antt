-- ===== src/Runtime/Monitors.antt =====
-- The list of monitors that a runtime keeps (gpsee_monitors.c).
use gpsee.Base.{ℕ, ◌≡◌, ◌≢◌, refl, true, false, List, [], ◌∷◌, some, arith, ◌==◌, if◌then◌else◌}
use gpsee.Platform.{Platform}
use gpsee.Monitor.{nil_monitor, enter_monitor, enter_monitor-nil, leave_monitor-nil}
use gpsee.DataStore.{Slot, State, otm_keys, has_flag, put}
use gpsee.DataStore.Slots.{count_key}
use gpsee.DataStore.Map.{count_key-put, count_key-remove}
use gpsee.DataStore.Iterate.{walk, for_each-walk}
use gpsee.Runtime.{
  Grt, create_monitor, enter_auto_monitor, destroy_monitor, destroy_monitor_cb, destroy,
  shutdown_monitor_system,
}

module _ {W : Type 0} (p : Platform W) (grt : Grt) (w w' : W) where
  abbrev made : ℕ
  made = (create_monitor p grt w).0

  -- Creating a monitor and destroying it leaves the list of the runtime with the monitors it had,
  -- each as often, also when the list could not take the new one.
  pub destroy_monitor-create_monitor :
      (j : ℕ)
      → has_flag grt.monitor_list.flags otm_keys ≡ false
      → j ≢ 0
      → made ≢ 0
      → made ≢ nil_monitor
      → count_key made grt.monitor_list.slots ≡ 0
      → count_key j (destroy_monitor p (create_monitor p grt w).1 made w').0.monitor_list.slots
        ≡ count_key j grt.monitor_list.slots
  unfolding create_monitor destroy_monitor
  destroy_monitor-create_monitor j plain posj pos real fresh =
      let w₁ = p.enter grt.monitor w in
      let w₂ = (p.new_monitor w₁).1 in
      let list = (put p grt.monitor_list made 0 w₂).1 in
      ground (
        arith,
        count_key-put p grt.monitor_list made 0 j w₂ plain pos posj fresh,
        count_key-remove p list made 0 j (p.enter grt.monitor w') pos posj,
      )

  -- An auto-monitor is made at most once: entered again, it is the same monitor, and the runtime
  -- does not change.
  pub enter_auto_monitor_again :
      (m : ℕ) (w'' : W)
      → (enter_auto_monitor p m grt w).0 ≢ 0
      → let (m', grt', w₁) = enter_auto_monitor p m grt w in
        enter_auto_monitor p m' grt' w'' ≡ (m', grt', enter_monitor p m' w'')
  unfolding enter_auto_monitor
  enter_auto_monitor_again m w'' made = ground arith

module _ {W : Type 0} (p : Platform W) where
  -- Every monitor in the list is destroyed, in order.
  pub destroy_all : List Slot → W → W
  destroy_all [] w = w
  destroy_all (s ∷ ss) w =
      let rest = destroy_all ss (if s.key == 0 then w else p.destroy s.key w) in rest

  walk-destroy_all :
      (ss : List Slot) (st : State W (Unit {0}))
      → walk (destroy_monitor_cb p) ss st ≡ (true, record st { world = destroy_all ss st.world })
  unfolding walk destroy_monitor_cb destroy_all
  walk-destroy_all [] st = refl
  walk-destroy_all (s ∷ ss) st = ground (
    arith,
    walk-destroy_all ss st,
    walk-destroy_all ss (record st { world = p.destroy s.key st.world }),
  )

  -- The shutdown destroys each monitor that the list holds, in the order of the slots, and then the
  -- monitor of the monitor system itself; it ends, and does nothing else to the monitors.
  pub shutdown-destroy_all :
      (grt : Grt) (w : W)
      → grt.monitor_list.monitor ≡ nil_monitor
      → shutdown_monitor_system p grt w
        ≡ some (p.destroy grt.monitor (destroy_all grt.monitor_list.slots w))
  unfolding shutdown_monitor_system destroy destroy_monitor
  shutdown-destroy_all grt w nil =
      let st : State W (Unit {0}) = record { store = grt.monitor_list; world = w; user = tt } in
      let list = grt.monitor_list.slots in
      ground (
        arith,
        for_each-walk p (destroy_monitor_cb p) st (unfold destroy_monitor_cb in λ k v s. refl),
        walk-destroy_all list (record st { world = enter_monitor p grt.monitor_list.monitor w }),
        enter_monitor-nil p w,
        enter_monitor-nil p (destroy_all list w),
        leave_monitor-nil p (destroy_all list w),
      )
