-- ===== src/ContextPrivate/Destruction.antt =====
-- The end of a context (gpsee_context_private.c).
use gpsee.Base.{
  ℕ, ◌+◌, ◌≡◌, refl, sym, ◌∙◌, ap, List, [], ◌∷◌, ◌++◌, none, some, arith, length, get_elem?,
  length-append, Bool-cases, inl, inr, if◌then◌else◌, ◌==◌,
}
use mathlib.Core.List.{append_assoc, append-nil}
use gpsee.ContextPrivate.{
  Entry, Private, destroyed, Host, notify, free_all, destroy_context_private, entry_at, notify_all,
  context_destroyed,
}
use gpsee.ContextPrivate.Lookup.{IsDiscreet, notify-hnd}

get_elem?-behind : (xs ys : List Entry) (y : Entry) → get_elem? (xs ++ y ∷ ys) (length xs) ≡ some y
get_elem?-behind [] ys y = refl
get_elem?-behind (x ∷ xs) ys y = get_elem?-behind xs ys y

get_elem?-end : (xs : List Entry) → get_elem? xs (length xs) ≡ none
get_elem?-end [] = refl
get_elem?-end (x ∷ xs) = get_elem?-end xs

module _ {W : Type 0} (host : Host W) (runtime cx : ℕ) where
  -- The callback of each entry that has one, in the order of the list, told that the context is destroyed.
  pub told : List Entry → Private W → Private W
  told [] s = s
  told (e ∷ es) s = told es (if e.cb == 0 then s else host.call e.cb destroyed s)

  -- The storage of each entry freed, in the order of the list.
  pub freed : List Entry → W → W
  freed [] w = w
  freed (e ∷ es) w = freed es (host.free e.storage w)

module _ {W : Type 0} (host : Host W) (runtime cx : ℕ) where
  notify-call :
      (cb : ℕ) (s : Private W)
      → (if cb == 0 then s else host.call cb destroyed s) ≡ notify host runtime cx cb destroyed s
  unfolding notify
  notify-call cb s = elim (Bool-cases (cb == 0)) [
    | inl e ↦ rw (notify, e) refl
    | inr e ↦ rw (notify, e) refl
  ]

  free_all-freed :
      (es : List Entry) (w : W) → free_all host runtime cx es w ≡ freed host runtime cx es w
  unfolding free_all freed
  free_all-freed [] w = refl
  free_all-freed (e ∷ es) w = free_all-freed es (host.free e.storage w)

module _ {W : Type 0} (host : Host W) (discreet : IsDiscreet host) (runtime cx : ℕ) where
  told-hnd : (es : List Entry) (s : Private W) → (told host runtime cx es s).hnd ≡ s.hnd
  unfolding told
  told-hnd [] s = refl
  told-hnd (e ∷ es) s =
      rw (told, notify-call host runtime cx e.cb s)
        (told-hnd es (notify host runtime cx e.cb destroyed s)
          ∙ notify-hnd host discreet runtime cx e.cb destroyed s)

  notify_all-told :
      (done es : List Entry) (s : Private W)
      → s.hnd ≡ some (done ++ es)
      → notify_all host runtime cx (length es + 1) (length done) s
        ≡ some (told host runtime cx es s)
  unfolding notify_all entry_at told
  notify_all-told done [] s h = ground (arith, h, append-nil done, get_elem?-end done)
  notify_all-told done (e ∷ es) s h =
      let t = notify host runtime cx e.cb destroyed s in
      ground (
        arith,
        h,
        notify-call host runtime cx e.cb s,
        get_elem?-behind done es e,
        notify_all-told (done ++ e ∷ []) es t (
            notify-hnd host discreet runtime cx e.cb destroyed s
            ∙ (h ∙ ap (λ (l : List Entry). some l) (sym (append_assoc done (e ∷ []) es)))),
        length-append done (e ∷ []),
      )

  -- Where the callbacks leave the context's list alone, its end calls the callback of each entry
  -- that has one once, in the order of the list, then frees each storage once, in order, and clears the
  -- context's private pointer; a loop of one round more than there are entries is enough.
  pub context_destroyed-told :
      (es : List Entry) (s : Private W)
      → s.hnd ≡ some es
      → context_destroyed host runtime cx (length es + 1) s
        ≡ some (record {
          hnd = none;
          world = freed host runtime cx es (told host runtime cx es s).world;
        })
  unfolding context_destroyed destroy_context_private
  context_destroyed-told es s h = ground (
    arith,
    notify_all-told [] es s h,
    told-hnd es s,
    h,
    free_all-freed host runtime cx es (told host runtime cx es s).world,
  )
