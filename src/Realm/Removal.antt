-- ===== src/Realm/Removal.antt =====
-- The destruction of the contexts of a realm in gpsee_realms.c.
use gpsee.Base.{
  ℕ, zero, suc, ◌+◌, ◌<◌, ◌≤◌, ◌≡◌, ◌≢◌, refl, sym, ap, ap₂, subst, ◌∙◌, inl, inr, Bool, true,
  false, not, ◌&&◌, List, [], ◌∷◌, ◌++◌, Option, some, arith, ◌==◌, if◌then◌else◌, Bool-cases,
  length, length-append,
}
use mathlib.Core.List.{append-nil, append_assoc}
use gpsee.Platform.{Platform}
use gpsee.Monitor.{enter_monitor, leave_monitor, leave_monitor-enter_monitor}
use gpsee.DataStore.{Slot, State, Callback, remove, clear, for_each_loop, for_each}
use gpsee.DataStore.Slots.{count_key, count_key-append, count_entry}
use gpsee.DataStore.Map.{IsMap}
use gpsee.GcCallback.Removal.{
  strip_slot, strip, count_entry-strip, get_elem?-append, get_elem?-length,
}
use gpsee.Realm.{Host, Engine, destroy_context, destroy_realm_context_cb, destroy_realm_contexts}

for_each_ended :
    {W X : Type 0} (p : Platform W) (cb : Callback W X) (st st' : State W X) (ok : Bool)
    → for_each_loop cb
        (suc (length st.store.slots))
        0
        (record st { world = enter_monitor p st.store.monitor st.world })
      ≡ some (ok, st')
    → for_each p cb st
      ≡ some (ok, record st' { world = leave_monitor p st'.store.monitor st'.world })
unfolding for_each
for_each_ended p cb st st' ok eq = rw (eq, for_each)

clear_behind :
    (k : ℕ) (done : List Slot) (s : Slot) (ss : List Slot)
    → count_key k done ≡ 0
    → s.key ≡ k
    → (clear k (done ++ s ∷ ss)).1 ≡ done ++ record s { key = 0 } ∷ ss
unfolding clear count_key
clear_behind k [] s ss clean own = let here : (s.key == k) ≡ true = ground (arith, own) in rw (here)
clear_behind k (x ∷ done) s ss clean own =
    let other : (x.key == k) ≡ false = ground (arith, clean) in
    let rest : count_key k done ≡ 0 = ground (arith, clean) in
    rw (other, clear_behind k done s ss rest own)

-- No key but NULL stands twice in the two lists.
IsUnique : List Slot → List Slot → Type 0
IsUnique done ss = (k : ℕ) → k ≢ 0 → count_key k done + count_key k ss ≤ 1

unseen :
    (done : List Slot) (s : Slot) (ss : List Slot)
    → (s.key == 0) ≡ false
    → IsUnique done (s ∷ ss)
    → count_key s.key done ≡ 0
unfolding IsUnique count_key
unseen done s ss live unique = ground (arith, live, unique s.key)

count_key-strip_slot :
    (realm k : ℕ) (s : Slot) → k ≢ 0 → count_key k (strip_slot realm s ∷ []) ≤ count_key k (s ∷ [])
unfolding count_key
count_key-strip_slot realm k s pos = ground (arith, pos)

IsUnique-round :
    (realm : ℕ) (done : List Slot) (s : Slot) (ss : List Slot)
    → IsUnique done (s ∷ ss)
    → IsUnique (done ++ strip_slot realm s ∷ []) ss
unfolding IsUnique
IsUnique-round realm done s ss unique k pos = omega (
  arith,
  unique k pos,
  count_key-append k done (strip_slot realm s ∷ []),
  count_key-strip_slot realm k s pos,
  count_key-append k (s ∷ []) ss,
)

module _ {W E : Type 0} (p : Platform W) (h : Host E) (realms_monitor cx_monitor : ℕ) where
  -- The contexts of a realm are ended one by one, in the order of the table.
  unfoldable pub destroyed : ℕ → List Slot → E → E
  destroyed dying [] e = e
  destroyed dying (s ∷ ss) e =
      let rest = destroyed dying ss in
      if not (s.key == 0) && s.value == dying
      then rest (h.destroy s.key (h.end_request s.key e))
      else rest e

  abbrev pub with_slots : State W (Engine E) → List Slot → E → State W (Engine E)
  with_slots st ss e = record st {
    store = record st.store { slots = ss };
    user = record st.user { engine = e };
  }

  destroy_context-with_slots :
      (st : State W (Engine E)) (done : List Slot) (s : Slot) (ss : List Slot) (e : E)
      → count_key s.key done ≡ 0
      → destroy_context p h realms_monitor cx_monitor s.key (with_slots st (done ++ s ∷ ss) e)
        ≡ with_slots st
            (done ++ record s { key = 0 } ∷ ss)
            (h.destroy s.key (h.end_request s.key e))
  unfolding destroy_context remove
  destroy_context-with_slots st done s ss e clean = rw (
    clear_behind s.key done s ss clean refl,
    leave_monitor-enter_monitor p st.store.monitor (p.enter cx_monitor st.world),
    p.exit-enter cx_monitor st.world,
  )

  -- The call at a slot of the realm, and at one of another.
  call_own :
      (dying : ℕ) (st : State W (Engine E)) (done : List Slot) (s : Slot) (ss : List Slot) (e : E)
      → count_key s.key done ≡ 0
      → (s.value == dying) ≡ true
      → destroy_realm_context_cb p h realms_monitor cx_monitor dying s.key s.value
          (with_slots st (done ++ s ∷ ss) e)
        ≡ (
          true,
          with_slots st
              (done ++ record s { key = 0 } ∷ ss)
              (h.destroy s.key (h.end_request s.key e)),
        )
  unfolding destroy_realm_context_cb
  call_own dying st done s ss e clean own =
      rw (own, destroy_context-with_slots st done s ss e clean)

  call_other :
      (dying : ℕ) (st : State W (Engine E)) (s : Slot)
      → (s.value == dying) ≡ false
      → destroy_realm_context_cb p h realms_monitor cx_monitor dying s.key s.value st ≡ (true, st)
  unfolding destroy_realm_context_cb
  call_other dying st s other = rw (other)

  abbrev loop : ℕ → ℕ → ℕ → State W (Engine E) → Option (Bool × State W (Engine E))
  loop dying fuel i st =
      for_each_loop (destroy_realm_context_cb p h realms_monitor cx_monitor dying) fuel i st

  -- The rounds from the slot behind, as those from behind the slot.
  moved :
      (dying fuel : ℕ) (done : List Slot) (s : Slot) (ss rest : List Slot) (st : State W (Engine E))
      (e e' : E)
      → loop dying fuel (length (done ++ s ∷ [])) (with_slots st ((done ++ s ∷ []) ++ ss) e)
        ≡ some (true, with_slots st ((done ++ s ∷ []) ++ rest) e')
      → loop dying fuel (length done + 1) (with_slots st (done ++ s ∷ ss) e)
        ≡ some (true, with_slots st (done ++ s ∷ rest) e')
  moved dying fuel done s ss rest st e e' eq =
      let len : length done + 1 ≡ length (done ++ s ∷ []) =
        omega (arith, length-append done (s ∷ [])) in
      ap₂ (λ (i : ℕ) (l : List Slot). loop dying fuel i (with_slots st l e)) len
        (sym (append_assoc done (s ∷ []) ss))
      ∙ eq
      ∙ ap (λ (l : List Slot). some (true, with_slots st l e')) (append_assoc done (s ∷ []) rest)

  rounds :
      (dying fuel : ℕ) (done ss : List Slot) (st : State W (Engine E)) (e : E)
      → IsUnique done ss
      → length ss < fuel
      → for_each_loop
          (destroy_realm_context_cb p h realms_monitor cx_monitor dying)
          fuel
          (length done)
          (with_slots st (done ++ ss) e)
        ≡ some (true, with_slots st (done ++ strip dying ss) (destroyed dying ss e))
  unfolding for_each_loop strip destroyed IsUnique
  rounds dying zero done ss st e unique lt = absurd (omega (arith, lt))
  rounds dying (suc fuel) done [] st e unique lt =
      rw (append-nil done) (rw (get_elem?-length done, for_each_loop))
  rounds dying (suc fuel) done (s ∷ ss) st e unique lt =
      let unique' = IsUnique-round dying done s ss unique in
      let at = get_elem?-append done s ss in
      let shorter : length ss < fuel = omega (arith, lt) in
      elim (Bool-cases (s.key == 0)) [
        | inl g ↦
            let s_same : strip_slot dying s ≡ s = rw (g) in
            rw (at, for_each_loop, g)
              (moved dying fuel done s ss (strip dying ss) st e (destroyed dying ss e) (
                rounds dying fuel (done ++ s ∷ []) ss st e
                  (subst (λ (x : Slot). IsUnique (done ++ x ∷ []) ss) s_same unique') shorter))
        | inr g ↦ elim (Bool-cases (s.value == dying)) [
          | inr f ↦
              let s_same : strip_slot dying s ≡ s = rw (g, f) in
              rw
                (
                  at,
                  for_each_loop,
                  g,
                  call_other dying (with_slots st (done ++ s ∷ ss) e) s f,
                  call_other dying (with_slots st (done ++ s ∷ ss) e) s f,
                  f,
                )
                (moved dying fuel done s ss (strip dying ss) st e (destroyed dying ss e) (
                  rounds dying fuel (done ++ s ∷ []) ss st e
                    (subst (λ (x : Slot). IsUnique (done ++ x ∷ []) ss) s_same unique') shorter))
          | inl f ↦
              let s' : Slot = record s { key = 0 } in
              let e' = h.destroy s.key (h.end_request s.key e) in
              let s_new : strip_slot dying s ≡ s' = rw (g, f) in
              rw
                (
                  at,
                  for_each_loop,
                  g,
                  call_own dying st done s ss e (unseen done s ss g unique) f,
                  call_own dying st done s ss e (unseen done s ss g unique) f,
                  f,
                )
                (moved dying fuel done s' ss (strip dying ss) st e' (destroyed dying ss e') (
                  rounds dying fuel (done ++ s' ∷ []) ss st e'
                    (subst (λ (x : Slot). IsUnique (done ++ x ∷ []) ss) s_new unique') shorter))
        ]
      ]

  -- Where no context stands twice in the table, the destruction of a realm ends, returns JS_TRUE, ends the
  -- request of each context of the realm and destroys it, once and in the order of the table, and takes
  -- exactly these contexts out of the table: under a key that is not NULL, no entry of the realm is left,
  -- and as many of any other realm as before.
  pub destroy_realm_contexts-strip :
      (dying k v : ℕ) (st : State W (Engine E))
      → IsMap st.store
      → k ≢ 0
      → (ss : List Slot) × (destroy_realm_contexts p h realms_monitor cx_monitor dying st
          ≡ some (true, with_slots st ss (destroyed dying st.store.slots st.user.engine)))
        × (count_entry k v ss ≡ (if v == dying then 0 else count_entry k v st.store.slots))
  unfolding destroy_realm_contexts for_each IsUnique count_key
  destroy_realm_contexts-strip dying k v st unique pos = (
    strip dying st.store.slots,
    let entered = record st { world = enter_monitor p st.store.monitor st.world } in
        let done =
          rounds dying (suc (length st.store.slots)) [] st.store.slots entered st.user.engine
            (λ j ne. omega (arith, unique j ne)) (omega arith) in
        let left = leave_monitor-enter_monitor p st.store.monitor st.world in
        for_each_ended p (destroy_realm_context_cb p h realms_monitor cx_monitor dying) st _ true
          done
        ∙ rw (left),
    count_entry-strip dying k v st.store.slots pos,
  )
