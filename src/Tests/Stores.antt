-- ===== src/Tests/Stores.antt =====
-- Data stores, monitors and callbacks of the garbage collector, over a world that is the stack of
-- monitors entered.
use gpsee.Base.{
  ℕ, ◌+◌, ◌≡◌, not, refl, inl, inr, true, false, List, [], ◌∷◌, some, arith, ltb, length,
  if◌then◌else◌, ◌==◌,
}
use gpsee.Platform.{Platform}
use gpsee.Monitor.{nil_monitor, enter_monitor, leave_monitor}
use gpsee.DataStore
use gpsee.DataStore.{
  Slot, Store, State, unlocked, otm_keys, put, get, remove, match_remove, for_each,
}
use gpsee.DataStore.{Callback, has_data, ds_create, slot_bytes, store_bytes}
use gpsee.DataStore.Sequence.{
  Call, puts, removes, gets, done, value, answers, AreExplained, AreInOrder, ds_create-AreExplained,
}
use gpsee.Runtime.{Grt, create_monitor, create}
use gpsee.GcCallback.{remove_all_gc_callbacks_for_realm}
use gpsee.GcCallback.Removal.{remove_all-count_entry}
use gpsee.DataStore.Slots.{count_key, count_entry}
use gpsee.DataStore.Map.{IsMap, get-put, get-remove}

exit_top : List ℕ → List ℕ
exit_top [] = []
exit_top (m ∷ w) = w

exit_enter : (m : ℕ) (w : List ℕ) → exit_top (m ∷ w) ≡ w
unfolding exit_top
exit_enter m w = refl

-- Blocks below 1000 bytes are granted.
abbrev nspr : Platform (List ℕ)
nspr = record {
  grants = λ n. ltb n 1000;
  enter = λ m w. m ∷ w;
  exit = λ m w. exit_top w;
  exit-enter = exit_enter;
  new_monitor = λ w. (40 + length w, w);
  destroy = λ m w. w;
}

abbrev slot : ℕ → ℕ → Slot
slot k v = record { key = k; value = v }

-- A hole, then two entries.
abbrev holed : Store
holed = record { slots = slot 0 9 ∷ slot 5 50 ∷ slot 6 60 ∷ []; monitor = 7; flags = 0 }

abbrev bag : Store
bag = record { slots = slot 5 50 ∷ slot 5 50 ∷ slot 0 0 ∷ []; monitor = 7; flags = otm_keys }

program : Unit {0}
unfolding DataStore.put DataStore.get DataStore.remove DataStore.match_remove DataStore.for_each
    DataStore.find DataStore.place DataStore.new_size DataStore.extend DataStore.clear
    DataStore.clear_match enter_monitor leave_monitor exit_top
program = tt

holed-IsMap : IsMap holed
unfolding count_key
holed-IsMap k pos = ground arith

fits : (put nspr holed 5 51 []).0 ≡ true
unfolding program
fits = refl

get-put_example : (get nspr (put nspr holed 5 51 []).1 5 (3 ∷ [])).0 ≡ 51
get-put_example = get-put nspr holed 5 51 [] (3 ∷ []) refl fits

get-remove_example :
    ((get nspr (remove nspr holed 5 []).1 6 []).0 ≡ (if 6 == 5 then 0 else (get nspr holed 6 []).0))
    × IsMap (remove nspr holed 5 []).1
get-remove_example = get-remove nspr holed 5 [] 6 [] holed-IsMap (omega arith) (omega arith)

-- A store with one slot that grows once, and a key that is removed and put again.
abbrev calls : List Call
calls =
    puts 5 50
    ∷ puts 5 51
    ∷ puts 6 60
    ∷ gets 5
    ∷ removes 5
    ∷ gets 5
    ∷ gets 6
    ∷ puts 5 52
    ∷ gets 5
    ∷ []

abbrev one_slot : Store
one_slot = record { slots = slot 0 0 ∷ []; monitor = 0; flags = 0 }

one_slot-made : ds_create nspr 1 ≡ some one_slot
unfolding ds_create
one_slot-made = refl

calls-AreInOrder : AreInOrder (λ k. false) false calls
calls-AreInOrder = (
  omega arith,
  inr refl,
  (
    omega arith,
    inr refl,
    (
      omega arith,
      inr refl,
      (
        omega arith,
        (omega arith, (omega arith, (omega arith, (omega arith, inl refl, (omega arith, tt))))),
      ),
    ),
  ),
)

answered :
    answers nspr calls (record one_slot { monitor = 7; flags = unlocked }) []
    ≡ done true
      ∷ done true
      ∷ done true
      ∷ value 51
      ∷ value 51
      ∷ value 0
      ∷ value 60
      ∷ done true
      ∷ value 52
      ∷ []
unfolding program answers
answered = refl

ds_create-AreExplained_example :
    AreExplained
      (λ k. 0)
      calls
      (answers nspr calls (record one_slot { monitor = 7; flags = unlocked }) [])
ds_create-AreExplained_example =
    ds_create-AreExplained nspr calls 1 7 unlocked one_slot [] one_slot-made refl calls-AreInOrder

-- A callback that counts the entries and turns down the key 6.
abbrev count_five : Callback (List ℕ) ℕ
count_five k v st = (not (k == 6), record st { user = st.user + 1 })

abbrev fresh : State (List ℕ) ℕ
fresh = record { store = holed; world = []; user = 0 }

abbrev grt : Grt
grt = record {
  monitor = 3;
  monitor_list = record { slots = slot 30 0 ∷ []; monitor = nil_monitor; flags = unlocked };
}

made_41 : (create_monitor nspr grt []).0 ≡ 41
unfolding create_monitor exit_top
made_41 = refl

abbrev hint : ℕ
hint = 100

-- The store that is created with the flags 0 and two slots.
abbrev made : Store
made = record { slots = slot 0 0 ∷ slot 0 0 ∷ []; monitor = 41; flags = 0 }

created : (create nspr grt 0 2 []).0 ≡ some made
unfolding create create_monitor ds_create exit_top
created = refl

abbrev callbacks : Store
callbacks = record { slots = slot 5 1 ∷ slot 6 2 ∷ slot 6 1 ∷ []; monitor = 7; flags = otm_keys }

remove_all-count_entry_example :
    (ss : List Slot) × (remove_all_gc_callbacks_for_realm nspr callbacks 1 []
      ≡ some (true, record callbacks { slots = ss }, []))
    × (count_entry 6 2 ss ≡ count_entry 6 2 callbacks.slots)
remove_all-count_entry_example =
    remove_all-count_entry nspr 1 (omega arith) callbacks [] 6 2 (omega arith)
