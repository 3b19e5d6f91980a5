-- ===== src/Runtime.antt =====
-- gpsee_monitors.c, the calls that take a runtime, and the calls of gpsee_datastores.c that create
-- and destroy a store with its monitor. The build has JS_THREADSAFE. Of `gpsee_runtime_t` the two
-- fields that these calls use are kept. `gpsee_throw` of the initialisation is its `none`.
pub mod Stores
pub mod Monitors
use gpsee.Base.{ℕ, true, [], Option, none, some, ◌==◌, if◌then◌else◌}
use gpsee.Platform.{Platform}
use gpsee.Monitor.{nil_monitor, get_nil_monitor, enter_monitor, leave_monitor}
use gpsee.DataStore.{Store, State, Callback, unlocked, has_flag, ds_create, put, remove, for_each}

-- `monitors.monitor` and `monitorList_unlocked`
pub record Grt : Type 0 where
  pub monitor : ℕ
  pub monitor_list : Store

abbrev no_store : Store
no_store = record { slots = []; monitor = 0; flags = 0 }

module _ {W : Type 0} (p : Platform W) where
  -- The result of `gpsee_ds_put` is dropped, as in the source.
  unfoldable pub create_monitor : Grt → W → ℕ × Grt × W
  create_monitor grt w =
      let w₁ = p.enter grt.monitor w in
      let (monitor, w₂) = p.new_monitor w₁ in
      let (_, list, w₃) = put p grt.monitor_list monitor 0 w₂ in
      (monitor, record grt { monitor_list = list }, p.exit grt.monitor w₃)

  -- `*monitor_p` is the first argument and the first result.
  pub enter_auto_monitor : ℕ → Grt → W → ℕ × Grt × W
  enter_auto_monitor m grt w =
      if m == 0
      then (let (m', grt', w₁) = create_monitor grt w in (m', grt', enter_monitor p m' w₁))
      else (m, grt, enter_monitor p m w)

  pub destroy_monitor : Grt → ℕ → W → Grt × W
  destroy_monitor grt monitor w =
      if monitor == nil_monitor
      then (grt, w)
      else (let w₁ = p.enter grt.monitor w in
          let (_, list, w₂) = remove p grt.monitor_list monitor w₁ in
          (record grt { monitor_list = list }, p.destroy monitor (p.exit grt.monitor w₂)))

  -- `gpsee_ds_create` over what `ds_create` gives.
  equip : Grt → ℕ → Option Store → W → Option Store × Grt × W
  equip grt flags none w = (none, grt, w)
  equip grt flags (some s) w =
      if has_flag flags unlocked
      then (some (record s { monitor = get_nil_monitor; flags = flags }), grt, w)
      else (let (m, grt', w₁) = create_monitor grt w in
          (some (record s { monitor = m; flags = flags }), grt', w₁))

  unfoldable pub create : Grt → ℕ → ℕ → W → Option Store × Grt × W
  unfolding equip
  create grt flags hint w = equip grt flags (ds_create p hint) w

  -- The memory of the store is given back between the entering and the leaving of its monitor.
  pub destroy : Grt → Store → W → Grt × W
  destroy grt s w =
      let monitor = s.monitor in
      let w₁ = enter_monitor p monitor w in destroy_monitor grt monitor (leave_monitor p monitor w₁)

  -- `gpsee_initializeMonitorSystem`; the outer `none` is its JS_FALSE. That `gpsee_ds_create` may
  -- give NULL is not tested there: the inner `none`. It passes no runtime, and none is read.
  pub initialize_monitor_system : W → Option (ℕ × Option Store) × W
  unfolding create
  initialize_monitor_system w =
      let (monitor, w₁) = p.new_monitor w in
      if monitor == 0
      then (none, w₁)
      else (let grt : Grt = record { monitor = monitor; monitor_list = no_store } in
          let (list, _, w₂) = create grt unlocked 5 w₁ in (some (monitor, list), w₂))

  -- `destroyMonitor_cb`
  pub destroy_monitor_cb : Callback W (Unit {0})
  destroy_monitor_cb key value st = (true, record st { world = p.destroy key st.world })

  -- The list's own monitor is the nil one, so `gpsee_ds_destroy` of it only gives back memory.
  pub shutdown_monitor_system : Grt → W → Option W
  shutdown_monitor_system grt w =
      elim (for_each p destroy_monitor_cb
        (record { store = grt.monitor_list; world = w; user = tt })) [
          | none ↦ none
          | some (_, st) ↦ some (p.destroy grt.monitor (destroy grt grt.monitor_list st.world).1)
        ]
