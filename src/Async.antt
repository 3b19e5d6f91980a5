-- ===== src/Async.antt =====
-- The asynchronous callbacks of gpsee.c: the list of the registrations, sorted by context, which each
-- operation changes under its lock, the thread that triggers contexts, and the operation callback. A
-- pointer is a number, `none` a read or a write through NULL or through a pointer that has been freed.
pub mod Sorted
pub mod Calls
pub mod Reached
use gpsee.Base.{
  ℕ, zero, suc, Bool, true, false, not, List, [], ◌∷◌, ◌++◌, Option, none, some, ltb, ◌==◌,
  if◌then◌else◌,
}
use gpsee.Util.{◌>>=◌}

-- A `struct GPSEEAsyncCallback` at the address `handle`; `next` is what stands behind it in the list.
pub record Entry : Type 0 where
  pub callback : ℕ
  pub userdata : ℕ
  pub cx : ℕ
  pub handle : ℕ

-- `grt->asyncCallbacks`, and the rest of the world.
pub record State (W : Type 0) : Type 0 where
  pub list : List Entry
  pub world : W

-- JS_malloc and JS_ReportOutOfMemory, JS_free, JS_SetOperationCallback with this file's callback or NULL,
-- and gpsee_getContextPrivate for the removal of a context's callbacks at its end.
pub record Host (W : Type 0) : Type 0 where
  pub malloc : W → Option ℕ × W
  pub out_of_memory : ℕ → W → W
  pub free : ℕ → W → W
  pub set_operation_callback : ℕ → Bool → W → W
  pub get_context_private : ℕ → W → W

-- At the sorted insertion point.
unfoldable pub insert : Entry → List Entry → List Entry
insert e [] = e ∷ []
insert e (x ∷ list) = if ltb e.cx x.cx then x ∷ insert e list else e ∷ x ∷ list

-- The `next` of an entry of the context that has been inserted.
unfoldable pub next_of : ℕ → List Entry → Option Entry
next_of cx [] = none
next_of cx (x ∷ list) = if ltb cx x.cx then next_of cx list else some x

unfoldable pub is_first : ℕ → List Entry → Bool
is_first cx list = elim (next_of cx list) [ none ↦ true | some x ↦ not (x.cx == cx) ]

-- The list without what stands behind the entry before the handle.
unfoldable pub unlink : ℕ → List Entry → Option (List Entry)
unlink handle [] = none
unlink handle (x ∷ []) = none
unlink handle (x ∷ y ∷ list) =
    let rest = unlink handle (y ∷ list) in
    if y.handle == handle then some (x ∷ list) else (rest >>= λ l. some (x ∷ l))

-- What stands before the first entry of the context, and from there on.
unfoldable pub before_context : ℕ → List Entry → List Entry
before_context cx [] = []
before_context cx (x ∷ list) = if x.cx == cx then [] else x ∷ before_context cx list

unfoldable pub from_context : ℕ → List Entry → List Entry
from_context cx [] = []
from_context cx (x ∷ list) = if x.cx == cx then x ∷ list else from_context cx list

-- The entries of the context at the start of the list, and what stands behind them.
unfoldable pub segment : ℕ → List Entry → List Entry
segment cx [] = []
segment cx (x ∷ list) = if x.cx == cx then x ∷ segment cx list else []

unfoldable pub behind_segment : ℕ → List Entry → List Entry
behind_segment cx [] = []
behind_segment cx (x ∷ list) = if x.cx == cx then behind_segment cx list else x ∷ list

-- The contexts that a round of the thread triggers behind an entry of a context.
unfoldable pub triggered_behind : ℕ → List Entry → List ℕ
triggered_behind cx [] = []
triggered_behind cx (x ∷ list) =
    if cx == x.cx then triggered_behind cx list else x.cx ∷ triggered_behind x.cx list

unfoldable pub triggered : List Entry → List ℕ
triggered [] = []
triggered (x ∷ list) = x.cx ∷ triggered_behind x.cx list

-- The list from the entry at an address.
unfoldable pub at_handle : ℕ → List Entry → List Entry
at_handle handle [] = []
at_handle handle (x ∷ list) = if x.handle == handle then x ∷ list else at_handle handle list

module _ {W : Type 0} (h : Host W) where
  unfoldable pub add_async_callback : ℕ → ℕ → ℕ → State W → Option ℕ × State W
  add_async_callback cx callback userdata st =
      let (p, w) = h.malloc st.world in
      elim p [
        | none ↦ (none, record st { world = h.out_of_memory cx w })
        | some handle ↦
            let e : Entry = record {
              callback = callback;
              userdata = userdata;
              cx = cx;
              handle = handle;
            } in
            (
              some handle,
              record {
                list = insert e st.list;
                world = if is_first cx st.list then h.get_context_private cx w else w;
              },
            )
      ]

  unfoldable pub remove_async_callback : ℕ → State W → Option (State W)
  remove_async_callback handle st = unlink handle st.list >>= λ list.
      some (record { list = list; world = h.free handle st.world })

  unfoldable pub free_entries : List Entry → W → W
  free_entries [] w = w
  free_entries (x ∷ list) w = free_entries list (h.free x.handle w)

  -- `destroyed` is whether the operation is JSCONTEXT_DESTROY.
  unfoldable pub remove_async_callback_context : ℕ → Bool → State W → State W
  remove_async_callback_context cx destroyed st =
      if destroyed
      then (record {
        list = before_context cx st.list ++ behind_segment cx (from_context cx st.list);
        world = free_entries (segment cx (from_context cx st.list)) st.world;
      })
      else st

  unfoldable pub remove_all_async_callbacks : State W → State W
  remove_all_async_callbacks st = record { list = []; world = free_entries st.list st.world }

  -- What a callback does, and its result.
  module _ (run : Entry → State W → Bool × State W) where
    -- The loop over the list from an address, on fuel; `next` is read before the call.
    unfoldable pub call_from : ℕ → ℕ → State W → Option (Bool × State W)
    call_from zero handle st = none
    call_from (suc fuel) handle st = elim (at_handle handle st.list) [
      | [] ↦ none
      | e ∷ rest ↦
          let (ok, st') = run e st in
          if ok
          then (elim rest [ [] ↦ some (true, st') | x ∷ list ↦ call_from fuel x.handle st' ])
          else some (false, st')
    ]

    unfoldable pub operation_callback : ℕ → ℕ → State W → Option (Bool × State W)
    operation_callback fuel cx st =
        let st₁ = record st { world = h.set_operation_callback cx false st.world } in
        elim st₁.list [
          | [] ↦ some (true, st₁)
          | x ∷ list ↦ call_from fuel x.handle st₁ >>= λ (ok, st₂). some (
            ok,
            if ok then (record st₂ { world = h.set_operation_callback cx true st₂.world }) else st₂,
          )
        ]
