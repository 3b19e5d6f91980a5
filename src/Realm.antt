-- ===== src/Realm.antt =====
-- gpsee_realms.c: the contexts of realms, which `grt->realmsByContext` maps to their realms. Pointers are
-- numbers, NULL is 0; `none` is a call with a context that is NULL.
pub mod Contexts
pub mod Removal
use gpsee.Base.{ℕ, Bool, true, false, Option, none, some, ◌==◌, if◌then◌else◌}
use gpsee.Platform.{Platform}
use gpsee.DataStore.{Store, State, Callback, get, put, remove, for_each}

-- SpiderMonkey: JS_NewContext, which gives 0 for NULL, JS_SetThreadStackLimit, JS_DestroyContext, the
-- calls that open a request in a new context and equip it for a realm, JS_EndRequest.
pub record Host (E : Type 0) : Type 0 where
  pub new_context : E → ℕ × E
  pub set_stack_limit : ℕ → E → E
  pub destroy : ℕ → E → E
  pub equip : ℕ → ℕ → E → E
  pub end_request : ℕ → E → E

-- `realm->cachedCx` of each realm, and the engine.
pub record Engine (E : Type 0) : Type 0 where
  pub cached : ℕ → ℕ
  pub engine : E

module _ {W E : Type 0} (p : Platform W) (h : Host E) (realms_monitor cx_monitor : ℕ) where
  -- For what gpsee_getModuleScopeRealm returns.
  unfoldable pub get_realm : ℕ → ℕ → State W (Engine E) → ℕ × State W (Engine E)
  get_realm scope_realm cx st =
      if scope_realm == 0
      then (let w = p.enter realms_monitor st.world in
          let (realm, w₁) = get p st.store cx w in
          (realm, record st { world = p.exit realms_monitor w₁ }))
      else (scope_realm, st)

  -- The cached context is taken, if there is one; no other thread takes it at the same time.
  unfoldable pub take_context : ℕ → Engine E → ℕ × Engine E
  take_context realm e =
      if e.cached realm == 0
      then (let (cx, e₁) = h.new_context e.engine in (cx, record e { engine = e₁ }))
      else (e.cached realm, record e { cached = λ r. if r == realm then 0 else e.cached r })

  unfoldable pub add_context : ℕ → ℕ → State W (Engine E) → ℕ × State W (Engine E)
  add_context realm cx st =
      let (ok, store, w) = put p st.store cx realm st.world in
      let st₁ = record st { store = store; world = p.exit cx_monitor w } in
      if ok
      then (cx, record st₁ { user = record st.user { engine = h.equip cx realm st.user.engine } })
      else (0, record st₁ { user = record st.user { engine = h.destroy cx st.user.engine } })

  unfoldable pub create_context : ℕ → State W (Engine E) → Option (ℕ × State W (Engine E))
  create_context realm st =
      if realm == 0
      then some (0, st)
      else (let (cx, e) = take_context realm st.user in
          if cx == 0
          then none
          else some (
              add_context realm cx (record st {
                world = p.enter cx_monitor st.world;
                user = record e { engine = h.set_stack_limit cx e.engine };
              })))

  unfoldable pub destroy_context : ℕ → State W (Engine E) → State W (Engine E)
  destroy_context cx st =
      let w = p.enter cx_monitor st.world in
      let e = h.destroy cx (h.end_request cx st.user.engine) in
      let (realm, store, w₁) = remove p st.store cx w in
      record { store = store; world = p.exit cx_monitor w₁; user = record st.user { engine = e } }

  unfoldable pub destroy_realm_context_cb : ℕ → Callback W (Engine E)
  destroy_realm_context_cb dying context realm st =
      if realm == dying then (true, destroy_context context st) else (true, st)

  -- The part of gpsee_destroyRealm that destroys the contexts of the realm.
  unfoldable pub destroy_realm_contexts :
      ℕ → State W (Engine E) → Option (Bool × State W (Engine E))
  destroy_realm_contexts dying st = for_each p (destroy_realm_context_cb dying) st
