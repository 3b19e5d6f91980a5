-- ===== src/Tests/Realm.antt =====
-- The contexts of realms (gpsee_realms.c).
use gpsee.Base.{ℕ, ◌≡◌, refl, true, List, [], ◌∷◌, ◌++◌, some, arith}
use gpsee.Platform.{Platform}
use gpsee.DataStore.{Slot, Store, State}
use gpsee.DataStore.Slots.{count_key, count_entry}
use gpsee.DataStore.Map.{IsMap}
use gpsee.Realm.{Host, Engine, take_context, destroy_realm_contexts}
use gpsee.Realm.Removal.{with_slots, destroyed, destroy_realm_contexts-strip}

abbrev platform : Platform ℕ
platform = record {
  grants = λ n. true;
  enter = λ m w. w;
  exit = λ m w. w;
  exit-enter = λ m w. refl;
  new_monitor = λ w. (9, w);
  destroy = λ m w. w;
}

-- The engine is the list of the contexts that have been destroyed; new contexts are at 700.
abbrev host : Host (List ℕ)
host = record {
  new_context = λ e. (700, e);
  set_stack_limit = λ cx e. e;
  destroy = λ cx e. e ++ cx ∷ [];
  equip = λ cx realm e. e;
  end_request = λ cx e. e;
}

-- Contexts 10 and 12 of realm 5, 11 of realm 6.
abbrev table : Store
table = record {
  slots =
      record { key = 10; value = 5 }
      ∷ record { key = 11; value = 6 }
      ∷ record { key = 12; value = 5 }
      ∷ [];
  monitor = 3;
  flags = 0;
}

table-IsMap : IsMap table
unfolding count_key
table-IsMap k pos = ground arith

abbrev start : State ℕ (Engine (List ℕ))
start = record { store = table; world = 0; user = record { cached = λ r. 0; engine = [] } }

abbrev taken : ℕ
taken = (take_context platform host 2 4 6 start.user).0

destroy_realm_contexts-strip_example :
    (ss : List Slot) × (destroy_realm_contexts platform host 2 4 5 start
      ≡ some (
        true,
        with_slots platform host 2 4 start ss (destroyed platform host 2 4 5 table.slots []),
      ))
    × (count_entry 11 6 ss ≡ count_entry 11 6 table.slots)
destroy_realm_contexts-strip_example =
    destroy_realm_contexts-strip platform host 2 4 5 11 6 start table-IsMap (ground arith)

destroyed-table : destroyed platform host 2 4 5 table.slots [] ≡ 10 ∷ 12 ∷ []
unfolding destroyed
destroyed-table = refl
