-- ===== src/GcCallback/Removal.antt =====
-- `gpsee_removeAllGCCallbacks_forRealm` of gpsee_gccallbacks.c, which removes entries from the store
-- that it is iterating over.
use gpsee.Base.{
  ℕ, zero, suc, ◌<◌, ◌≡◌, ◌≢◌, refl, Bool, true, false, false, not, ◌&&◌, List, [], ◌∷◌, ◌++◌, none,
  some, arith, ◌==◌, if◌then◌else◌, length, get_elem?, length-append,
}
use mathlib.Core.List.{append-nil, append_assoc}
use gpsee.Platform.{Platform}
use gpsee.Monitor.{enter_monitor, leave_monitor-enter_monitor}
use gpsee.DataStore.{Slot, Store, State, clear_match, match_remove, for_each_loop, for_each}
use gpsee.DataStore.Slots.{count_entry, count_entry-append, clear_match-append}
use gpsee.GcCallback.{remove_all_for_realm_cb, remove_all_gc_callbacks_for_realm}

-- A slot without its key, if it is an entry of the realm.
abbrev pub strip_slot : ℕ → Slot → Slot
strip_slot realm s = if not (s.key == 0) && s.value == realm then record s { key = 0 } else s

unfoldable pub strip : ℕ → List Slot → List Slot
strip realm [] = []
strip realm (s ∷ ss) = strip_slot realm s ∷ strip realm ss

pub count_entry-strip :
    (realm k v : ℕ) (ss : List Slot)
    → k ≢ 0
    → count_entry k v (strip realm ss) ≡ (if v == realm then 0 else count_entry k v ss)
unfolding count_entry strip
count_entry-strip realm k v [] pos = ground arith
count_entry-strip realm k v (s ∷ ss) pos = ground (arith, count_entry-strip realm k v ss pos)

strip_slot_clean :
    (realm k : ℕ) (s : Slot) → k ≢ 0 → count_entry k realm (strip_slot realm s ∷ []) ≡ 0
unfolding count_entry
strip_slot_clean realm k s pos = ground arith

match_remove_eq :
    {W : Type 0} (p : Platform W) (s : Store) (k v : ℕ) (w : W)
    → match_remove p s k v w
      ≡ ((clear_match k v s.slots).0, record s { slots = (clear_match k v s.slots).1 }, w)
unfolding match_remove
match_remove_eq p s k v w = ground (arith, leave_monitor-enter_monitor p s.monitor w)

pub get_elem?-append :
    (xs : List Slot) (y : Slot) (ys : List Slot) → get_elem? (xs ++ y ∷ ys) (length xs) ≡ some y
get_elem?-append [] y ys = refl
get_elem?-append (x ∷ xs) y ys = get_elem?-append xs y ys

pub get_elem?-length : (xs : List Slot) → get_elem? xs (length xs) ≡ none
get_elem?-length [] = refl
get_elem?-length (x ∷ xs) = get_elem?-length xs

module _ {W : Type 0} (p : Platform W) (realm : ℕ) (real : realm ≢ 0) where
  abbrev with_slots : State W Bool → List Slot → State W Bool
  with_slots st ss = record st { store = record st.store { slots = ss } }

  -- One round at the slot behind `done`, in which no entry of the realm is left.
  round :
      (done : List Slot) (s : Slot) (ss : List Slot) (st : State W Bool)
      → ((k : ℕ) → k ≢ 0 → count_entry k realm done ≡ 0)
      → (s.key == 0) ≡ false
      → remove_all_for_realm_cb p realm s.key s.value (with_slots st (done ++ s ∷ ss))
        ≡ (true, with_slots st (done ++ strip_slot realm s ∷ ss))
  unfolding remove_all_for_realm_cb
  round done s ss st clean live = ground (
    arith,
    match_remove_eq p (record st.store { slots = done ++ s ∷ ss }) s.key s.value st.world,
    clear_match-append s.key s.value done s ss,
    clean s.key,
    real,
  )

  rounds :
      (fuel : ℕ) (done ss : List Slot) (st : State W Bool)
      → ((k : ℕ) → k ≢ 0 → count_entry k realm done ≡ 0)
      → length ss < fuel
      → for_each_loop
          (remove_all_for_realm_cb p realm)
          fuel
          (length done)
          (with_slots st (done ++ ss))
        ≡ some (true, with_slots st (done ++ strip realm ss))
  unfolding for_each_loop strip
  rounds zero done ss st clean h = absurd (omega arith)
  rounds (suc fuel) done [] st clean h =
      rw (append-nil done) (ground (arith, get_elem?-length done))
  rounds (suc fuel) done (s ∷ ss) st clean h =
      let s' = strip_slot realm s in
      let clean' : (k : ℕ) → k ≢ 0 → count_entry k realm (done ++ s' ∷ []) ≡ 0 = λ k pos. omega (
        arith,
        count_entry-append k realm done (s' ∷ []),
        clean k pos,
        count_entry-strip realm k realm (s ∷ []) pos,
        strip_slot_clean realm k s pos,
      ) in
      ground (
        arith,
        get_elem?-append done s ss,
        round done s ss st clean,
        rounds fuel (done ++ s' ∷ []) ss st clean',
        append_assoc done (s' ∷ []) ss,
        append_assoc done (s' ∷ []) (strip realm ss),
        length-append done (s' ∷ []),
      )

  -- For a realm that is not NULL the iteration ends, returns JS_TRUE, is back outside the monitor, and
  -- has changed nothing but the slots; every entry of the realm is gone, and of the other entries
  -- under a key that is not NULL there are as many as before.
  pub remove_all-count_entry :
      (list : Store) (w : W) (k v : ℕ)
      → k ≢ 0
      → (ss : List Slot) × (remove_all_gc_callbacks_for_realm p list realm w
          ≡ some (true, record list { slots = ss }, w))
        × (count_entry k v ss ≡ (if v == realm then 0 else count_entry k v list.slots))
  unfolding remove_all_gc_callbacks_for_realm for_each
  remove_all-count_entry list w k v pos = (
    strip realm list.slots,
    ground (
      arith,
      rounds (suc (length list.slots)) [] list.slots
          (record { store = list; world = enter_monitor p list.monitor w; user = false })
          (λ j ne. unfold count_entry in refl) (omega arith),
      leave_monitor-enter_monitor p list.monitor w,
    ),
    count_entry-strip realm k v list.slots pos,
  )
