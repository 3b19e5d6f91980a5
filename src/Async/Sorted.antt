-- ===== src/Async/Sorted.antt =====
-- The list of asynchronous callbacks of gpsee.c stays sorted, and what follows from that.
use gpsee.Base.{
  ℕ, ◌+◌, ◌≤◌, ◌<◌, ◌≡◌, refl, ap, ◌∙◌, inl, inr, Bool, true, false, ◌||◌, List, [], ◌∷◌, ◌++◌,
  none, some, arith, ltb, ◌==◌, if◌then◌else◌, Bool-cases, Option-cases,
}
use gpsee.Async.{
  Entry, State, Host, insert, before_context, from_context, segment, behind_segment,
  triggered_behind, triggered, add_async_callback, free_entries, remove_async_callback_context,
}

-- Greater contexts stand first, and none is above the bound.
pub data IsSorted : ℕ → List Entry → Type 0 where
  nil : {bound : ℕ} → IsSorted bound []
  cons :
      {bound : ℕ} (x : Entry) (list : List Entry)
      → x.cx ≤ bound
      → IsSorted x.cx list
      → IsSorted bound (x ∷ list)

-- The entries of a context, and those of the others.
unfoldable pub only : ℕ → List Entry → List Entry
only cx [] = []
only cx (x ∷ list) = if x.cx == cx then x ∷ only cx list else only cx list

unfoldable pub without : ℕ → List Entry → List Entry
without cx [] = []
without cx (x ∷ list) = if x.cx == cx then without cx list else x ∷ without cx list

insert-IsSorted :
    (bound : ℕ) (e : Entry) (list : List Entry)
    → e.cx ≤ bound
    → IsSorted bound list
    → IsSorted bound (insert e list)
unfolding insert
insert-IsSorted bound e _ le nil = cons e [] le nil
insert-IsSorted bound e _ le (cons x list below sorted) = elim (Bool-cases (ltb e.cx x.cx)) [
  | inl h ↦
      rw (h) (cons x (insert e list) below (insert-IsSorted x.cx e list (ground (arith, h)) sorted))
  | inr h ↦ rw (h) (cons e (x ∷ list) le (cons x list (ground (arith, h)) sorted))
]

below_none :
    (bound cx : ℕ) (list : List Entry)
    → bound < cx
    → IsSorted bound list
    → (without cx list ≡ list) × (only cx list ≡ [])
unfolding without only
below_none bound cx _ lt nil = (refl, refl)
below_none bound cx _ lt (cons x list below sorted) =
    let other : (x.cx == cx) ≡ false = ground (arith, lt, below) in
    let (same, empty) = below_none x.cx cx list (omega (arith, lt, below)) sorted in
    (rw (other, same), rw (other, empty))

only-insert :
    (e : Entry) (bound : ℕ) (list : List Entry)
    → IsSorted bound list
    → (only e.cx (insert e list) ≡ e ∷ only e.cx list)
      × (without e.cx (insert e list) ≡ without e.cx list)
unfolding only without insert
only-insert e bound _ nil = let own : (e.cx == e.cx) ≡ true = ground arith in (rw (own), rw (own))
only-insert e bound _ (cons x list below sorted) =
    let own : (e.cx == e.cx) ≡ true = ground arith in
    elim (Bool-cases (ltb e.cx x.cx)) [
      | inr h ↦ (rw (h, own, only), rw (h, own, without))
      | inl h ↦
          let other : (x.cx == e.cx) ≡ false = ground (arith, h) in
          let (mine, others) = only-insert e x.cx list sorted in
          (rw (h, other, mine, only), rw (h, other, others, without))
    ]

segment-only :
    (bound cx : ℕ) (list : List Entry)
    → bound ≤ cx
    → IsSorted bound list
    → (behind_segment cx list ≡ without cx list) × (segment cx list ≡ only cx list)
unfolding behind_segment segment without only
segment-only bound cx _ le nil = (refl, refl)
segment-only bound cx _ le (cons x list below sorted) = elim (Bool-cases (x.cx == cx)) [
  | inl h ↦
      let (behind, own) = segment-only x.cx cx list (omega (arith, le, below)) sorted in
      (rw (h, behind), rw (h, own))
  | inr h ↦
      let lt : x.cx < cx = ground (arith, h, le, below) in
      let (same, empty) = below_none x.cx cx list lt sorted in (rw (h, same), rw (h, empty))
]

context-only :
    (bound cx : ℕ) (list : List Entry)
    → IsSorted bound list
    → (before_context cx list ++ behind_segment cx (from_context cx list) ≡ without cx list)
      × (segment cx (from_context cx list) ≡ only cx list)
unfolding before_context from_context behind_segment segment without only
context-only bound cx _ nil = (refl, refl)
context-only bound cx _ (cons x list below sorted) = elim (Bool-cases (x.cx == cx)) [
  | inl h ↦
      let (behind, own) = segment-only x.cx cx list (ground (arith, h)) sorted in
      (rw (h, h, behind), rw (h, h, own))
  | inr h ↦
      let (rest, own) = context-only x.cx cx list sorted in
      (rw (h) (ap (λ (l : List Entry). x ∷ l) rest), rw (h, own))
]

unfoldable pub has : ℕ → List Entry → Bool
has cx [] = false
has cx (x ∷ list) = x.cx == cx || has cx list

unfoldable pub count : ℕ → List ℕ → ℕ
count n [] = 0
count n (m ∷ ms) = (if m == n then 1 else 0) + count n ms

has_below :
    (bound cx : ℕ) (list : List Entry) → bound < cx → IsSorted bound list → has cx list ≡ false
unfolding has
has_below bound cx _ lt nil = refl
has_below bound cx _ lt (cons x list below sorted) =
    ground (arith, lt, below, has_below x.cx cx list (omega (arith, lt, below)) sorted)

count_above :
    (bound cx : ℕ) (list : List Entry)
    → bound ≤ cx
    → IsSorted bound list
    → count cx (triggered_behind bound list) ≡ 0
unfolding count triggered_behind
count_above bound cx _ le nil = refl
count_above bound cx _ le (cons x list below sorted) =
    let rest = count_above x.cx cx list (omega (arith, le, below)) sorted in
    elim (Bool-cases (bound == x.cx)) [
      | inl h ↦
          let same : bound ≡ x.cx = ground (arith, h) in
          rw (h) (ap (λ (b : ℕ). count cx (triggered_behind b list)) same ∙ rest)
      | inr h ↦
          let other : (x.cx == cx) ≡ false = ground (arith, h, le, below) in rw (h, other, rest)
    ]

count_below :
    (bound cx : ℕ) (list : List Entry)
    → cx < bound
    → IsSorted bound list
    → count cx (triggered_behind bound list) ≡ (if has cx list then 1 else 0)
unfolding count has triggered_behind
count_below bound cx _ lt nil = refl
count_below bound cx _ lt (cons x list below sorted) = elim (Bool-cases (x.cx == cx)) [
  | inl h ↦
      let far : (bound == x.cx) ≡ false = ground (arith, h, lt) in
      rw (far, h, count_above x.cx cx list (ground (arith, h)) sorted)
  | inr h ↦ elim (Bool-cases (ltb cx x.cx)) [
    | inl g ↦
        let rest = count_below x.cx cx list (ground (arith, g)) sorted in
        elim (Bool-cases (bound == x.cx)) [
          | inl e ↦
              let same : bound ≡ x.cx = ground (arith, e) in
              rw (e, h) (ap (λ (b : ℕ). count cx (triggered_behind b list)) same ∙ rest)
          | inr e ↦ rw (e, h, rest) (omega arith)
        ]
    | inr g ↦
        let far : (bound == x.cx) ≡ false = ground (arith, g, lt) in
        rw (
          far,
          h,
          count_above x.cx cx list (ground (arith, g)) sorted,
          has_below x.cx cx list (ground (arith, g, h)) sorted,
        )
  ]
]

-- A round of the thread triggers each context of a sorted list exactly once, and no other.
pub count-triggered :
    (bound cx : ℕ) (list : List Entry)
    → IsSorted bound list
    → count cx (triggered list) ≡ (if has cx list then 1 else 0)
unfolding count has triggered
count-triggered bound cx _ nil = refl
count-triggered bound cx _ (cons x list below sorted) = elim (Bool-cases (x.cx == cx)) [
  | inl h ↦ rw (h, count_above x.cx cx list (ground (arith, h)) sorted)
  | inr h ↦ elim (Bool-cases (ltb cx x.cx)) [
    | inl g ↦ rw (h, count_below x.cx cx list (ground (arith, g)) sorted) (omega arith)
    | inr g ↦ rw (
      h,
      count_above x.cx cx list (ground (arith, g)) sorted,
      has_below x.cx cx list (ground (arith, g, h)) sorted,
    )
  ]
]

-- The storage of each of the entries given to JS_free, in order.
unfoldable pub freed : {W : Type 0} → Host W → List Entry → W → W
freed h [] w = w
freed h (x ∷ list) w = freed h list (h.free x.handle w)

module _ {W : Type 0} (h : Host W) where
  free_entries-freed : (list : List Entry) (w : W) → free_entries h list w ≡ freed h list w
  unfolding free_entries freed
  free_entries-freed [] w = refl
  free_entries-freed (x ∷ list) w = free_entries-freed list (h.free x.handle w)

  -- gpsee_addAsyncCallback keeps the list sorted, puts its entry before the others of the context and
  -- leaves those of other contexts, or, where JS_malloc fails, leaves the list.
  pub add_async_callback-IsSorted :
      (bound cx callback userdata : ℕ) (st : State W)
      → cx ≤ bound
      → IsSorted bound st.list
      → let (p, st') = add_async_callback h cx callback userdata st in
        IsSorted bound st'.list
        × (without cx st'.list ≡ without cx st.list)
        × (only cx st'.list ≡ (elim p [
          | none ↦ only cx st.list
          | some handle ↦
              record { callback = callback; userdata = userdata; cx = cx; handle = handle }
              ∷ only cx st.list
        ]))
  unfolding add_async_callback
  add_async_callback-IsSorted bound cx callback userdata st le sorted =
      elim (Option-cases (h.malloc st.world).0) [
        | inl e ↦ rw (e, add_async_callback) (sorted, refl, refl)
        | inr (handle, e) ↦
            let new : Entry = record {
              callback = callback;
              userdata = userdata;
              cx = cx;
              handle = handle;
            } in
            let (mine, others) = only-insert new bound st.list sorted in
            rw (e, add_async_callback) (insert-IsSorted bound new st.list le sorted, others, mine)
      ]

  -- The end of a context takes its entries out of a sorted list, frees each of them once, in order, and
  -- leaves those of the other contexts as they stand.
  pub remove_async_callback_context-without :
      (bound cx : ℕ) (st : State W)
      → IsSorted bound st.list
      → remove_async_callback_context h cx true st
        ≡ record { list = without cx st.list; world = freed h (only cx st.list) st.world }
  unfolding remove_async_callback_context
  remove_async_callback_context-without bound cx st sorted =
      let (rest, own) = context-only bound cx st.list sorted in
      rw (rest, own, free_entries-freed (only cx st.list) st.world)
