-- ===== src/Async/Reached.antt =====
-- What holds of the list of asynchronous callbacks of gpsee.c in every state that its operations reach.
use mathlib.Core.Option.{some-injective, some-ne-none}
use gpsee.Base.{
  ℕ, ◌≤◌, ◌≡◌, sym, subst, inl, inr, Bool, true, false, List, [], ◌∷◌, some, arith, ◌==◌,
  if◌then◌else◌, Bool-cases, Option-cases,
}
use gpsee.Async.{
  Entry, State, Host, unlink, triggered, add_async_callback, remove_async_callback,
  remove_async_callback_context,
}
use gpsee.Async.Sorted.{
  IsSorted, nil, cons, without, has, count, count-triggered, add_async_callback-IsSorted,
  remove_async_callback_context-without,
}

weaken : (low bound : ℕ) (list : List Entry) → low ≤ bound → IsSorted low list → IsSorted bound list
weaken low bound _ le nil = nil
weaken low bound _ le (cons x list below sorted) = cons x list (omega (arith, le, below)) sorted

without-IsSorted :
    (bound cx : ℕ) (list : List Entry) → IsSorted bound list → IsSorted bound (without cx list)
unfolding without
without-IsSorted bound cx _ nil = nil
without-IsSorted bound cx _ (cons x list below sorted) = elim (Bool-cases (x.cx == cx)) [
  | inl h ↦
      rw (h) (weaken x.cx bound (without cx list) below (without-IsSorted x.cx cx list sorted))
  | inr h ↦ rw (h) (cons x (without cx list) below (without-IsSorted x.cx cx list sorted))
]

unlink-IsSorted :
    (bound handle : ℕ) (list list' : List Entry)
    → IsSorted bound list
    → unlink handle list ≡ some list'
    → IsSorted bound list'
unfolding unlink
unlink-IsSorted bound handle _ list' nil eq = absurd (some-ne-none _ (sym eq))
unlink-IsSorted bound handle _ list' (cons x _ below nil) eq = absurd (some-ne-none _ (sym eq))
unlink-IsSorted bound handle _ list' (cons x _ below (cons y list lower sorted)) eq =
    elim (Bool-cases (y.handle == handle)) [
      | inl h ↦
          subst (λ (l : List Entry). IsSorted bound l) (some-injective _ _ (rw (h) at eq))
            (cons x list below (weaken y.cx x.cx list lower sorted))
      | inr h ↦ elim (Option-cases (unlink handle (y ∷ list))) [
        | inl e ↦ absurd (some-ne-none _ (sym (rw (h, e) at eq)))
        | inr (rest, e) ↦
            subst (λ (l : List Entry). IsSorted bound l) (some-injective _ _ (rw (h, e) at eq))
              (cons x rest below
                (unlink-IsSorted x.cx handle (y ∷ list) rest (cons y list lower sorted) e))
      ]
    ]

module _ {W : Type 0} (h : Host W) where
  -- The states that the operations reach from an empty list, for contexts up to a bound.
  pub data Reached (bound : ℕ) : State W → Type 0 where
    start : (w : W) → Reached bound (record { list = []; world = w })
    added :
        (cx callback userdata : ℕ) (st : State W)
        → cx ≤ bound
        → Reached bound st
        → Reached bound (add_async_callback h cx callback userdata st).1
    removed :
        (handle : ℕ) (st st' : State W)
        → remove_async_callback h handle st ≡ some st'
        → Reached bound st
        → Reached bound st'
    ended :
        (cx : ℕ) (destroyed : Bool) (st : State W)
        → Reached bound st
        → Reached bound (remove_async_callback_context h cx destroyed st)

  removed-IsSorted :
      (bound handle : ℕ) (st st' : State W)
      → remove_async_callback h handle st ≡ some st'
      → IsSorted bound st.list
      → IsSorted bound st'.list
  unfolding remove_async_callback
  removed-IsSorted bound handle st st' eq sorted = elim (Option-cases (unlink handle st.list)) [
    | inl e ↦ absurd (some-ne-none _ (sym (rw (e) at eq)))
    | inr (list, e) ↦
        subst (λ (s : State W). IsSorted bound s.list) (some-injective _ _ (rw (e) at eq))
          (unlink-IsSorted bound handle st.list list sorted e)
  ]

  ended-IsSorted :
      (bound cx : ℕ) (destroyed : Bool) (st : State W)
      → IsSorted bound st.list
      → IsSorted bound (remove_async_callback_context h cx destroyed st).list
  unfolding remove_async_callback_context
  ended-IsSorted bound cx false st sorted = sorted
  ended-IsSorted bound cx true st sorted =
      subst (λ (s : State W). IsSorted bound s.list)
        (sym (remove_async_callback_context-without h bound cx st sorted))
        (without-IsSorted bound cx st.list sorted)

  Reached-IsSorted : (bound : ℕ) (st : State W) → Reached bound st → IsSorted bound st.list
  Reached-IsSorted bound _ (start w) = nil
  Reached-IsSorted bound _ (added cx callback userdata st le r) =
      (add_async_callback-IsSorted h bound cx callback userdata st le
        (Reached-IsSorted bound st r)).0
  Reached-IsSorted bound _ (removed handle st st' eq r) =
      removed-IsSorted bound handle st st' eq (Reached-IsSorted bound st r)
  Reached-IsSorted bound _ (ended cx destroyed st r) =
      ended-IsSorted bound cx destroyed st (Reached-IsSorted bound st r)

  -- In every state that additions, removals and ends of contexts reach from an empty list, in whatever
  -- order, the list is sorted by context, and a round of the thread triggers each of its contexts
  -- exactly once and no other.
  pub reached_triggered :
      (bound cx : ℕ) (st : State W)
      → Reached bound st
      → IsSorted bound st.list × (count cx (triggered st.list) ≡ (if has cx st.list then 1 else 0))
  reached_triggered bound cx st r =
      let sorted = Reached-IsSorted bound st r in (sorted, count-triggered bound cx st.list sorted)
