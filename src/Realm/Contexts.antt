-- ===== src/Realm/Contexts.antt =====
-- The creation of contexts in gpsee_realms.c.
use gpsee.Base.{ℕ, ◌≡◌, ◌≢◌, refl, ◌∙◌, true, false, some, arith, ◌==◌}
use gpsee.Platform.{Platform}
use gpsee.DataStore.{Store, State, has_flag, otm_keys, get, put}
use gpsee.DataStore.Map.{get-put, get-put_ne}
use gpsee.Realm.{Host, Engine, get_realm, take_context, add_context, create_context}

-- What is read does not depend on the world.
get_world :
    {W : Type 0} (p : Platform W) (s : Store) (k : ℕ) (w w' : W)
    → (get p s k w).0 ≡ (get p s k w').0
unfolding get
get_world p s k w w' = refl

module _ {W E : Type 0} (p : Platform W) (h : Host E) (realms_monitor cx_monitor : ℕ) where
  -- gpsee_createContext returns the context it has taken or made, where gpsee_ds_put has memory, and from
  -- then on gpsee_getRealm finds its realm, and for any other context what it found before.
  pub get_realm-create_context :
      (realm j : ℕ) (st : State W (Engine E))
      → has_flag st.store.flags otm_keys ≡ false
      → realm ≢ 0
      → (take_context p h realms_monitor cx_monitor realm st.user).0 ≢ 0
      → (put p st.store
          (take_context p h realms_monitor cx_monitor realm st.user).0
          realm
          (p.enter cx_monitor st.world)).0
        ≡ true
      → j ≢ (take_context p h realms_monitor cx_monitor realm st.user).0
      → j ≢ 0
      → (st' : State W (Engine E)) × (create_context p h realms_monitor cx_monitor realm st
          ≡ some ((take_context p h realms_monitor cx_monitor realm st.user).0, st'))
        × ((get_realm p h realms_monitor cx_monitor 0
              (take_context p h realms_monitor cx_monitor realm st.user).0
              st').0
            ≡ realm)
        × ((get_realm p h realms_monitor cx_monitor 0 j st').0
            ≡ (get_realm p h realms_monitor cx_monitor 0 j st).0)
  unfolding create_context add_context get_realm
  get_realm-create_context realm j st plain real made stored ne pos =
      let (cx, e) = take_context p h realms_monitor cx_monitor realm st.user in
      let w = p.enter cx_monitor st.world in
      let has_realm : (realm == 0) ≡ false = ground (arith, real) in
      let has_context : (cx == 0) ≡ false = ground (arith, made) in
      let after = put p st.store cx realm w in
      (
        record {
          store = after.1;
          world = p.exit cx_monitor after.2;
          user = record e { engine = h.equip cx realm (h.set_stack_limit cx e.engine) };
        },
        rw (has_realm, has_context, stored),
        get-put p st.store cx realm w (p.enter realms_monitor (p.exit cx_monitor after.2)) plain
            stored,
        get-put_ne p st.store cx realm w j (p.enter realms_monitor (p.exit cx_monitor after.2)) ne
              pos
            ∙ get_world p st.store j (p.enter realms_monitor (p.exit cx_monitor after.2))
                (p.enter realms_monitor st.world),
      )
