-- ===== src/ContextPrivate/Lookup.antt =====
-- The storage of an id in a context is made once (gpsee_context_private.c).
use gpsee.Base.{
  ℕ, ◌≡◌, ◌≢◌, refl, inl, inr, ◌&&◌, List, [], ◌∷◌, ◌++◌, Option, none, some, arith, ◌==◌,
  if◌then◌else◌, Bool-cases, Option-cases,
}
use gpsee.ContextPrivate.{
  Entry, Private, Operation, created, Host, find_entry, notify, storage_of, add_entry, find_or_add,
  get_context_private, set_context_callback,
}

find_entry-append :
    (cx id : ℕ) (es : List Entry) (e : Entry)
    → find_entry cx id (es ++ e ∷ []) ≡ (elim (find_entry cx id es) as (λ x. Option Entry) [
      | some d ↦ some d
      | none ↦ if e.cx == cx && e.id == id then some e else none
    ])
unfolding find_entry
find_entry-append cx id [] e = ground arith
find_entry-append cx id (d ∷ es) e = ground (arith, find_entry-append cx id es e)

-- What an id of the context has in the list, if it has anything.
abbrev pub storage_in : ℕ → ℕ → Option (List Entry) → Option Entry
storage_in cx id none = none
storage_in cx id (some es) = find_entry cx id es

module _ {W : Type 0} (host : Host W) where
  -- What is relied on: a callback for a new context leaves the list of the context alone.
  abbrev pub IsDiscreet : Type 0
  IsDiscreet = (cb : ℕ) (op : Operation) (s : Private W) → (host.call cb op s).hnd ≡ s.hnd

  module _ (discreet : IsDiscreet) (runtime cx : ℕ) where
    pub notify-hnd :
        (cb : ℕ) (op : Operation) (s : Private W) → (notify host runtime cx cb op s).hnd ≡ s.hnd
    unfolding notify
    notify-hnd cb op s = ground (arith, discreet cb op s)

    -- What a call for an id leaves in the list.
    pub record Added (id p : ℕ) (before after : Option (List Entry)) : Type 0 where
      pub others : (j : ℕ) → j ≢ id → storage_in cx j after ≡ storage_in cx j before
      pub own : id ≢ 0 → (e : Entry) × (storage_in cx id after ≡ some e) × (e.storage ≡ p)

    add_entry-Added :
        (id size cb p : ℕ) (es : List Entry) (w : W) (u : Private W)
        → find_entry cx id es ≡ none
        → add_entry host runtime cx id size cb es w ≡ some (p, u)
        → Added id p (some es) u.hnd
    unfolding add_entry
    add_entry-Added id size cb p es w u missing made =
        let q = storage_of host runtime cx size (host.grow w).1 in
        let owner : ℕ = if id == 0 then runtime else cx in
        let e : Entry = record { cx = owner; id = id; cb = cb; storage = q.0 } in
        let s : Private W = record { hnd = some (es ++ e ∷ []); world = q.1 } in
        let same = notify-hnd cb created s in
        elim (Bool-cases (host.grow w).0) [
          | inr h ↦ ground (arith, h, made)
          | inl h ↦
              let hnd : u.hnd ≡ some (es ++ e ∷ []) = ground (arith, h, made, same) in
              rw hnd (record {
                others = λ j ne. ground (arith, find_entry-append cx j es e);
                own = λ ne. (
                  e,
                  ground (arith, find_entry-append cx id es e, missing),
                  ground (arith, h, made),
                );
              })
        ]

    find_or_add-Added :
        (id size cb p : ℕ) (es : List Entry) (w : W) (u : Private W)
        → find_or_add host runtime cx id size cb es w ≡ some (p, u)
        → Added id p (some es) u.hnd
    unfolding find_or_add
    find_or_add-Added id size cb p es w u made = elim (Option-cases (find_entry cx id es)) [
      | inl h ↦ add_entry-Added id size cb p es w u h (ground (arith, h, made))
      | inr (e, h) ↦
          let hnd : u.hnd ≡ some es = ground (arith, h, made) in
          rw hnd (record { others = λ j ne. refl; own = λ ne. (e, h, ground (arith, h, made)) })
    ]

    module _ (id size cb p : ℕ) (s u : Private W) where
      get_context_private-Added :
          get_context_private host runtime cx id size cb s ≡ some (p, u)
          → u.hnd ≢ none
          → Added id p s.hnd u.hnd
      unfolding get_context_private find_entry
      get_context_private-Added made kept = elim (Option-cases s.hnd) [
        | inr (es, h) ↦ rw h (find_or_add-Added id size cb p es s.world u (ground (arith, h, made)))
        | inl h ↦ elim (Bool-cases (host.handle s.world).0) [
          | inr g ↦ absurd (kept (ground (arith, h, g, made)))
          | inl g ↦
              let a =
                find_or_add-Added id size cb p [] (host.handle s.world).1 u
                  (ground (arith, h, g, made)) in
              rw h (record { others = λ j ne. a.others j ne; own = a.own })
        ]
      ]

      -- Where the callbacks leave the context's list alone and a call for an id that is not NULL
      -- returned with a list in place, any later call for this id returns the same storage and changes
      -- nothing, whatever size and callback it is given.
      pub get-get :
          (size' cb' : ℕ)
          → id ≢ 0
          → get_context_private host runtime cx id size cb s ≡ some (p, u)
          → u.hnd ≢ none
          → get_context_private host runtime cx id size' cb' u ≡ some (p, u)
      unfolding get_context_private find_or_add
      get-get size' cb' ne made kept =
          let a = (get_context_private-Added made kept).own ne in
          elim (Option-cases u.hnd) [
            | inl h ↦ absurd (kept h)
            | inr (es, h) ↦ ground (arith, h, a.1, a.2)
          ]

      -- Under the same conditions the call changes the storage of no other id.
      pub get_ne :
          (j : ℕ)
          → j ≢ id
          → get_context_private host runtime cx id size cb s ≡ some (p, u)
          → u.hnd ≢ none
          → storage_in cx j u.hnd ≡ storage_in cx j s.hnd
      get_ne j ne made kept = (get_context_private-Added made kept).others j ne

    -- `gpsee_setContextCallback` does not replace the callback that it set before: as the context is
    -- not the runtime, each call makes the list one entry longer, and it returns the new callback.
    pub set_context_callback-append :
        (cb p : ℕ) (es : List Entry) (w : W) (u : Private W)
        → cx ≢ runtime
        → find_entry cx 0 es ≡ none
        → set_context_callback host runtime cx cb (record { hnd = some es; world = w })
          ≡ some (p, u)
        → let e : Entry = record { cx = runtime; id = 0; cb = cb; storage = 0 } in
          (p ≡ cb) × (u.hnd ≡ some (es ++ e ∷ [])) × (find_entry cx 0 (es ++ e ∷ []) ≡ none)
    unfolding set_context_callback get_context_private find_or_add add_entry storage_of
    set_context_callback-append cb p es w u ne missing made =
        let e : Entry = record { cx = runtime; id = 0; cb = cb; storage = 0 } in
        let t : Private W = record { hnd = some (es ++ e ∷ []); world = (host.grow w).1 } in
        let same = notify-hnd cb created t in
        (
          ground (arith, made, missing),
          ground (arith, made, missing, same),
          ground (arith, find_entry-append cx 0 es e, missing),
        )
