-- ===== src/Tests/Async.antt =====
-- The asynchronous callbacks of gpsee.c.
use gpsee.Base.{ℕ, ◌≡◌, refl, true, List, [], ◌∷◌, ◌++◌, none, some, arith, if◌then◌else◌}
use gpsee.Async.{
  Entry, State, Host, triggered, add_async_callback, remove_async_callback_context,
  triggered_behind, operation_callback,
}
use gpsee.Async.Sorted.{
  IsSorted, nil, cons, freed, only, without, has, count, add_async_callback-IsSorted,
  remove_async_callback_context-without,
}
use gpsee.Async.Reached.{Reached, start, added, reached_triggered}
use gpsee.Async.Calls.{
  absent_nil, absent_cons, IsDistinct, distinct_nil, distinct_cons, effects,
  operation_callback-effects,
}

-- The world is what has been freed and who has been called, and JS_malloc finds memory at 900.
abbrev host : Host (List ℕ)
host = record {
  malloc = λ w. (some 900, w);
  out_of_memory = λ cx w. w;
  free = λ handle w. handle ∷ w;
  set_operation_callback = λ cx on w. w;
  get_context_private = λ cx w. w;
}

abbrev entry : ℕ → ℕ → Entry
entry cx handle = record { callback = 1; userdata = 2; cx = cx; handle = handle }

-- Two entries of context 6 and one of context 4.
abbrev three : List Entry
three = entry 6 100 ∷ entry 6 200 ∷ entry 4 300 ∷ []

three-IsSorted : IsSorted 9 three
three-IsSorted =
    cons (entry 6 100) _ (omega arith)
      (cons (entry 6 200) _ (omega arith) (cons (entry 4 300) _ (omega arith) nil))

abbrev filled : State (List ℕ)
filled = record { list = three; world = [] }

add_async_callback-IsSorted_example :
    let (p, st') = add_async_callback host 5 7 8 filled in
    IsSorted 9 st'.list
    × (without 5 st'.list ≡ without 5 three)
    × (only 5 st'.list ≡ (elim p [
      | none ↦ only 5 three
      | some handle ↦ record { callback = 7; userdata = 8; cx = 5; handle = handle } ∷ only 5 three
    ]))
add_async_callback-IsSorted_example =
    add_async_callback-IsSorted host 9 5 7 8 filled (omega arith) three-IsSorted

remove_async_callback_context-without_example :
    remove_async_callback_context host 6 true filled
    ≡ record { list = without 6 three; world = freed host (only 6 three) [] }
remove_async_callback_context-without_example =
    remove_async_callback_context-without host 9 6 filled three-IsSorted

freed-three : freed host (only 6 three) [] ≡ 200 ∷ 100 ∷ []
unfolding freed only
freed-three = refl

-- Contexts 4 and 6 have been given a callback each.
abbrev fresh : State (List ℕ)
fresh = record { list = []; world = [] }

abbrev with_two : State (List ℕ)
with_two = (add_async_callback host 4 1 2 (add_async_callback host 6 1 2 fresh).1).1

with_two-Reached : Reached host 9 with_two
with_two-Reached = added 4 1 2 _ (omega arith) (added 6 1 2 fresh (omega arith) (start []))

reached_triggered_example :
    IsSorted 9 with_two.list
    × (count 6 (triggered with_two.list) ≡ (if has 6 with_two.list then 1 else 0))
reached_triggered_example = reached_triggered host 9 6 with_two with_two-Reached

triggered-three : triggered three ≡ 6 ∷ 4 ∷ []
unfolding triggered triggered_behind
triggered-three = refl

abbrev called : Entry → List ℕ → List ℕ
called e w = w ++ e.handle ∷ []

three-IsDistinct : IsDistinct three
three-IsDistinct =
    distinct_cons (entry 6 100) _
      (absent_cons (entry 6 200) _ (ground arith)
        (absent_cons (entry 4 300) _ (ground arith) absent_nil))
      (distinct_cons (entry 6 200) _ (absent_cons (entry 4 300) _ (ground arith) absent_nil)
        (distinct_cons (entry 4 300) _ absent_nil distinct_nil))

operation_callback-effects_example :
    operation_callback host (λ e st. (true, record st { world = called e st.world })) 3 6 filled
    ≡ some (
      true,
      record {
        list = three;
        world =
            effects host (λ e st. (true, record st { world = called e st.world })) called three [];
      },
    )
operation_callback-effects_example =
    operation_callback-effects host (λ e st. (true, record st { world = called e st.world })) called
      (λ e st. refl) 3 6 (entry 6 100) (entry 6 200 ∷ entry 4 300 ∷ []) [] (omega arith)
      three-IsDistinct
