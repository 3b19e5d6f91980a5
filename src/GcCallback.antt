-- ===== src/GcCallback.antt =====
-- gpsee_gccallbacks.c: the callbacks of the garbage collector, kept in a data store with
-- GPSEE_DS_OTM_KEYS as function and realm. Every realm in the store belongs to this runtime, so
-- `thisRealm->grt->gcCallbackList` is the store itself.
pub mod Removal
use gpsee.Base.{ℕ, Bool, true, false, Option, none, some, ◌==◌, if◌then◌else◌}
use gpsee.Platform.{Platform}
use gpsee.DataStore.{Store, State, Callback, put, match_remove, for_each}

module _ {W : Type 0} (p : Platform W) where
  pub add_gc_callback : Store → ℕ → ℕ → W → Bool × Store × W
  add_gc_callback list realm cb w = put p list cb realm w

  pub remove_gc_callback : Store → ℕ → ℕ → W → Bool × Store × W
  remove_gc_callback list realm cb w = match_remove p list cb realm w

module _ {W : Type 0} (p : Platform W) where
  -- It changes the store that is being iterated over. It reads `thisRealm->grt`: for a realm that is
  -- NULL it reads through NULL, which its state keeps.
  pub remove_all_for_realm_cb : ℕ → Callback W Bool
  unfolding remove_gc_callback
  remove_all_for_realm_cb check_realm fn this_realm st =
      if this_realm == check_realm
      then (if this_realm == 0
          then (false, record st { user = true })
          else (let (found, list, w) = remove_gc_callback p st.store this_realm fn st.world in
              (found, record st { store = list; world = w })))
      else (true, st)

  abbrev pub unless_fault : Option (Bool × State W Bool) → Option (Bool × Store × W)
  unless_fault none = none
  unless_fault (some (ret, st)) = if st.user then none else some (ret, st.store, st.world)

  -- `none` is a read through NULL.
  pub remove_all_gc_callbacks_for_realm : Store → ℕ → W → Option (Bool × Store × W)
  remove_all_gc_callbacks_for_realm list realm w = unless_fault (
      for_each p (remove_all_for_realm_cb realm) (record { store = list; world = w; user = false }))

module _ {W X : Type 0} (p : Platform W) where
  -- `run fn realm status` is the call of a registered function.
  pub gc_callback :
      (ℕ → ℕ → ℕ → State W X → Bool × State W X) → ℕ → State W X → Option (Bool × State W X)
  gc_callback run status st = for_each p (λ fn realm. run fn realm status) st
