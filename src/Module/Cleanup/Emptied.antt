-- ===== src/Module/Cleanup/Emptied.antt =====
-- The clean-up of the module system (gpsee_modules.c) empties the memo.
use gpsee.Base.{
  ℕ, ◌≡◌, ◌≢◌, refl, ◌∙◌, ap, inl, inr, Bool, true, false, ◌||◌, List, [], ◌∷◌, none, some, arith,
  ◌==◌, Bool-cases, if◌then◌else◌,
}
use gpsee.Base.Name.{Name, same_name, same_name_refl}
use gpsee.Util.Path.{Lacks}
use gpsee.Util.Path
use gpsee.Module.{Handle, Splay, State, Fini, mark_unused, release, finalize_scope}
use gpsee.Module.Memo.{IsMemo}
use gpsee.Module.Cleanup.{clear_private, cleanup_module, cleanup_modules, module_system_cleanup}

module _ {T W : Type 0} where
  -- The handles are different, and each is as the shutdown leaves it.
  pub data IsShut (s : State T W) : List ℕ → Type 0 where
    nil : IsShut s []
    cons :
        {p : ℕ} {ps : List ℕ}
        → (s.handles p).scope ≡ 0
        → (s.handles p).loaded ≡ false
        → (s.handles p).released ≡ false
        → Lacks p ps
        → IsShut s ps
        → IsShut s (p ∷ ps)

  module _ (tree : Splay T) (fini : Fini T W) (p : ℕ) (s : State T W)
      (un : (s.handles p).loaded ≡ false) (unreleased : (s.handles p).released ≡ false) where
    -- The release of a module that is not loaded calls no function of the module.
    release_unloaded :
        ((release tree fini p s).memo ≡ tree.remove (s.handles p).cname s.memo)
        × ((release tree fini p s).unreachable ≡ p ∷ s.unreachable)
        × ((q : ℕ) → q ≢ p → (release tree fini p s).handles q ≡ s.handles q)
        × ((q : ℕ) → ((release tree fini p s).handles q).cname ≡ (s.handles q).cname)
        × (((release tree fini p s).handles p).scope ≡ 0)
    unfolding release mark_unused
    release_unloaded = (
      ground (arith, un, unreleased),
      ground (arith, un, unreleased),
      λ q ne. ground (arith, un, unreleased),
      λ q. ground (arith, un, unreleased),
      ground (arith, un, unreleased),
    )

  IsShut-frame :
      (p : ℕ) (s u : State T W) (ps : List ℕ)
      → ((q : ℕ) → q ≢ p → u.handles q ≡ s.handles q)
      → Lacks p ps
      → IsShut s ps
      → IsShut u ps
  IsShut-frame p s u [] same l nil = nil
  IsShut-frame p s u (q ∷ ps) same (Path.cons ne l) (cons a b c m shut) =
      let e = same q ne in
      cons (ap Handle.scope e ∙ a) (ap Handle.loaded e ∙ b) (ap Handle.released e ∙ c) m
        (IsShut-frame p s u ps same l shut)

  -- Whether one of the handles has the name.
  unfoldable pub named : Name → List ℕ → State T W → Bool
  named k [] s = false
  named k (p ∷ ps) s = same_name k (s.handles p).cname || named k ps s

  named-frame :
      (k : Name) (ps : List ℕ) (s u : State T W)
      → ((q : ℕ) → (u.handles q).cname ≡ (s.handles q).cname)
      → named k ps u ≡ named k ps s
  unfolding named
  named-frame k [] s u same = refl
  named-frame k (p ∷ ps) s u same = ground (arith, same p, named-frame k ps s u same)

  named_found :
      (k : Name) (q : ℕ) (ps : List ℕ) (s : State T W)
      → (s.handles q).cname ≡ k
      → ¬ Lacks q ps
      → named k ps s ≡ true
  unfolding named
  named_found k q [] s e there = absurd (there Path.nil)
  named_found k q (p ∷ ps) s e there = elim (Bool-cases (p == q)) [
    | inl h ↦ ground (arith, h, e, same_name_refl k)
    | inr h ↦
        let more = named_found k q ps s e (λ l. there (Path.cons (ground (arith, h)) l)) in
        ground (arith, more)
  ]

-- Each put before the list.
pub push_all : List ℕ → List ℕ → List ℕ
push_all [] us = us
push_all (p ∷ ps) us = push_all ps (p ∷ us)

module _ {T W : Type 0} (tree : Splay T) (fini : Fini T W) where
  cleanup_modules-IsShut :
      (ps : List ℕ) (s : State T W)
      → IsShut s ps
      → (u : State T W) × (cleanup_modules tree fini ps s ≡ some u)
        × ((k : Name) → tree.find k u.memo ≡ (if named k ps s then 0 else tree.find k s.memo))
        × (u.unreachable ≡ push_all ps s.unreachable)
  unfolding cleanup_modules cleanup_module named push_all
  cleanup_modules-IsShut [] s nil = (s, refl, λ k. refl, refl)
  cleanup_modules-IsShut (p ∷ ps) s (cons bare un unreleased l shut) =
      let r = release_unloaded tree fini p s un unreleased in
      let s₁ = release tree fini p s in
      let (u, done, memo, list) =
        cleanup_modules-IsShut ps s₁ (IsShut-frame p s s₁ ps r.2 l shut) in
      (
        u,
        ground (arith, bare, done),
        λ k. ground (
          arith,
          memo k,
          r.0,
          tree.find-remove k (s.handles p).cname s.memo,
          named-frame k ps s s₁ r.3,
        ),
        ground (arith, list, r.1),
      )

  -- Where the memo's handles are different, none of them is loaded, has a scope or has been released,
  -- the clean-up ends with an empty memo: no name leads to a handle, and every handle of the memo has
  -- been put before the list of the unreachable ones.
  pub module_system_cleanup-IsShut :
      (s : State T W)
      → IsMemo tree s
      → IsShut s (tree.nodes s.memo)
      → (u : State T W) × (module_system_cleanup tree fini s ≡ some u)
        × ((k : Name) → tree.find k u.memo ≡ 0)
        × (u.unreachable ≡ push_all (tree.nodes s.memo) s.unreachable)
  unfolding module_system_cleanup
  module_system_cleanup-IsShut s m shut =
      let ps = tree.nodes s.memo in
      let (u, done, memo, list) = cleanup_modules-IsShut ps s shut in
      let gone : (k : Name) → tree.find k u.memo ≡ 0 = λ k.
        let q = tree.find k s.memo in
        elim (Bool-cases (q == 0)) [
          | inl h ↦ ground (arith, memo k, h)
          | inr h ↦
              let ne : q ≢ 0 = ground (arith, h) in
              let found = named_found k q ps s ((m k).named ne) (tree.find-nodes k s.memo ne) in
              ground (arith, memo k, found)
        ] in
      (u, done, gone, list)

  -- A module that has a scope, as it is in a realm that was not shut down, makes the clean-up pass
  -- NULL to JS_SetPrivate: the finalization has cleared the scope of the handle.
  pub cleanup_module_scope :
      (p : ℕ) (s : State T W)
      → (s.handles p).scope ≢ 0
      → s.scope_info (s.handles p).scope ≡ p
      → p ≢ 0
      → (s.handles p).loaded ≡ false
      → (s.handles p).released ≡ false
      → cleanup_module tree fini p s ≡ none
  unfolding cleanup_module finalize_scope clear_private
  cleanup_module_scope p s scoped known real un unreleased =
      let r = release_unloaded tree fini p s un unreleased in ground (arith, known, r.4)
