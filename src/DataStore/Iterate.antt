-- ===== src/DataStore/Iterate.antt =====
-- `gpsee_ds_forEach` of gpsee_datastores.c against a walk over the list of slots.
use gpsee.Base.{
  ℕ, zero, suc, ◌+◌, ◌≤◌, ◌<◌, ◌≡◌, ◌≢◌, ◌⊎◌, refl, Bool, true, false, List, [], ◌∷◌, none, some,
  arith, ◌==◌, length, get_elem?, drop, inl, inr, Option-cases,
}
use gpsee.Platform.{Platform}
use gpsee.Monitor.{enter_monitor, leave_monitor}
use gpsee.DataStore.{Slot, State, Callback, for_each_loop, for_each}

module _ {W X : Type 0} (cb : Callback W X) where
  -- The entries in order, up to the first that the callback turns down.
  unfoldable pub walk : List Slot → State W X → Bool × State W X
  walk [] st = (true, st)
  walk (s ∷ ss) st = elim (s.key == 0) [
    | true ↦ walk ss st
    | false ↦
        let (more, st') = cb s.key s.value st in
        elim more [ true ↦ walk ss st' | false ↦ (false, st') ]
  ]

  abbrev pub KeepsSize : Type 0
  KeepsSize = (k v : ℕ) (st : State W X) → length (cb k v st).1.store.slots ≡ length st.store.slots

  abbrev pub KeepsStore : Type 0
  KeepsStore = (k v : ℕ) (st : State W X) → (cb k v st).1.store ≡ st.store

drop_view :
    (xs : List Slot) (i : ℕ)
    → ((get_elem? xs i ≡ none) × (drop i xs ≡ []))
      ⊎ ((x : Slot) × (get_elem? xs i ≡ some x) × (drop i xs ≡ x ∷ drop (suc i) xs))
drop_view [] zero = inl (refl, refl)
drop_view [] (suc i) = inl (refl, refl)
drop_view (x ∷ xs) zero = inr (x, refl, refl)
drop_view (x ∷ xs) (suc i) = drop_view xs i

get_elem?-lt : (xs : List Slot) (i : ℕ) {x : Slot} → get_elem? xs i ≡ some x → i < length xs
get_elem?-lt [] i h = cc
get_elem?-lt (x ∷ xs) zero h = omega arith
get_elem?-lt (x ∷ xs) (suc i) h = omega (arith, get_elem?-lt xs i h)

module _ {W X : Type 0} (cb : Callback W X) where
  loop-walk :
      KeepsStore cb
      → (fuel i : ℕ) (st : State W X) → length st.store.slots < fuel + i
      → i ≤ length st.store.slots
      → for_each_loop cb fuel i st ≡ some (walk cb (drop i st.store.slots) st)
  unfolding for_each_loop walk
  loop-walk keeps zero i st h le = absurd (omega arith)
  loop-walk keeps (suc fuel) i st h le = elim (drop_view st.store.slots i) [
    | inl (e, d) ↦ ground arith
    | inr (x, e, d) ↦
        let next : i + 1 ≡ suc i = omega arith in
        let inside = get_elem?-lt st.store.slots i e in
        let st' = (cb x.key x.value st).1 in
        ground (
          arith,
          loop-walk keeps fuel (i + 1) st,
          loop-walk keeps fuel (i + 1) st',
          keeps x.key x.value st,
        )
  ]

  loop_total :
      KeepsSize cb
      → (fuel i : ℕ) (st : State W X) → length st.store.slots < fuel + i
      → i ≤ length st.store.slots
      → for_each_loop cb fuel i st ≢ none
  unfolding for_each_loop
  loop_total keeps zero i st h le = absurd (omega arith)
  loop_total keeps (suc fuel) i st h le = elim (Option-cases (get_elem? st.store.slots i)) [
    | inl e ↦ ground arith
    | inr (x, e) ↦
        let inside = get_elem?-lt st.store.slots i e in
        ground (
          arith,
          loop_total keeps fuel (i + 1) st,
          loop_total keeps fuel (i + 1) (cb x.key x.value st).1,
          keeps x.key x.value st,
        )
  ]

module _ {W X : Type 0} (p : Platform W) (cb : Callback W X) (st : State W X) where
  abbrev entered : State W X
  entered = record st { world = enter_monitor p st.store.monitor st.world }

  -- The fuel suffices whenever the callback keeps the number of slots, whatever else it changes.
  pub for_each_total : KeepsSize cb → for_each p cb st ≢ none
  unfolding for_each
  for_each_total keeps = ground (
    arith,
    loop_total cb keeps (suc (length st.store.slots)) 0 entered (omega arith) (omega arith),
  )

  -- With a callback that keeps the store, `gpsee_ds_forEach` hands over each entry whose key is not
  -- NULL once and in order, inside the monitor, until one is turned down; it returns JS_FALSE if one
  -- was, and has left the monitor.
  pub for_each-walk :
      KeepsStore cb
      → let (more, st') = walk cb st.store.slots entered in
        for_each p cb st
        ≡ some (more, record st' { world = leave_monitor p st'.store.monitor st'.world })
  unfolding for_each
  for_each-walk keeps = ground (
    arith,
    loop-walk cb keeps (suc (length st.store.slots)) 0 entered (omega arith) (omega arith),
  )
