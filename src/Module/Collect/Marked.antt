-- ===== src/Module/Collect/Marked.antt =====
-- What the collector's callback (gpsee_modules.c) keeps alive, and what it destroys.
use gpsee.Base.{
  ℕ, ◌≡◌, ◌≢◌, refl, ap, if◌then◌else◌, sym, subst, ◌⊎◌, inl, inr, false, List, [], ◌∷◌, ◌++◌,
  arith, ◌==◌, Bool-cases,
}
use gpsee.Base.Name.{Name}
use gpsee.Util.Path.{Lacks, Lacks-cons}
use gpsee.Util.Path
use gpsee.Module.{Handle, Splay, State}
use gpsee.Module.Collect.{
  finalize_end, mark_end, Freeing, marks, mark_exports, mark_scope, mark_scrobj,
  destroy_module_handle, destroy_unreachable, mark_modules, module_gc_callback,
}

Lacks-append : (x : ℕ) (s t : List ℕ) → Lacks x (s ++ t) → Lacks x s × Lacks x t
Lacks-append x [] t l = (Path.nil, l)
Lacks-append x (y ∷ s) t (Path.cons ne l) = let (a, b) = Lacks-append x s t l in (Path.cons ne a, b)

-- The things of a module that is not loaded.
abbrev pub PartOf : Handle → ℕ → Type 0
PartOf h x = (x ≡ h.exports) ⊎ (x ≡ h.scope) ⊎ (x ≡ h.scrobj)

Lacks-singleton : (x y : ℕ) (s : List ℕ) → x ≡ y → s ≡ y ∷ [] → ¬ Lacks x s
Lacks-singleton x y s e f l = (Lacks-cons (subst (Lacks x) f l)).0 (sym e)

marks_part : (h : Handle) (x : ℕ) → h.loaded ≡ false → x ≢ 0 → PartOf h x → ¬ Lacks x (marks h)
unfolding marks
marks_part h x un ne part l =
    let (a, r) = Lacks-append x (mark_exports h) (mark_scope h ++ mark_scrobj h) l in
    let (b, c) = Lacks-append x (mark_scope h) (mark_scrobj h) r in
    elim part [
      | inl e ↦ Lacks-singleton x h.exports (mark_exports h) e (ground (arith, e, ne, un)) a
      | inr (inl e) ↦ Lacks-singleton x h.scope (mark_scope h) e (ground (arith, e, ne, un)) b
      | inr (inr e) ↦ Lacks-singleton x h.scrobj (mark_scrobj h) e (ground (arith, e, ne, un)) c
    ]

module _ {T W : Type 0} (tree : Splay T) (rel : Freeing W) where
  mark_modules_part :
      (ps : List ℕ) (s : State T W) (p x : ℕ)
      → ¬ Lacks p ps
      → (s.handles p).loaded ≡ false
      → x ≢ 0
      → PartOf (s.handles p) x
      → ¬ Lacks x (mark_modules tree rel ps s)
  unfolding mark_modules
  mark_modules_part [] s p x there un ne part l = there Path.nil
  mark_modules_part (q ∷ ps) s p x there un ne part l =
      let (a, b) = Lacks-append x (marks (s.handles q)) (mark_modules tree rel ps s) l in
      elim (Bool-cases (q == p)) [
        | inl h ↦
            let same : q ≡ p = ground (arith, h) in
            marks_part (s.handles q) x (rw same un) ne (rw same part) a
        | inr h ↦
            mark_modules_part ps s p x (λ m. there (Path.cons (ground (arith, h)) m)) un ne part b
      ]

  -- dlclose of each of the modules that has a shared object, then its memory, in order.
  unfoldable freed : (ℕ → Handle) → List ℕ → W → W
  freed handles [] w = w
  freed handles (p ∷ ps) w =
      let d = (handles p).dso in
      freed handles ps (rel.free_handle p (if d == 0 then w else rel.dlclose d w))

  destroy_unreachable-freed :
      (ps : List ℕ) (s : State T W)
      → s.unreachable ≡ ps
      → destroy_unreachable tree rel ps s
        ≡ record s { unreachable = []; world = freed s.handles ps s.world }
  unfolding destroy_unreachable destroy_module_handle freed
  destroy_unreachable-freed [] s e = ap (λ (l : List ℕ). record s { unreachable = l }) e
  destroy_unreachable-freed (p ∷ ps) s e =
      destroy_unreachable-freed ps
        (record (destroy_module_handle tree rel p s) { unreachable = ps }) refl

  -- At the end of the finalization each unreachable module is destroyed once, in the order of the
  -- list: its shared object is closed, if it has one, and its memory is freed. The list is then empty,
  -- nothing is marked, and nothing else changes.
  module_gc_callback-freed :
      (s : State T W)
      → module_gc_callback tree rel finalize_end s
        ≡ ([], record s { unreachable = []; world = freed s.handles s.unreachable s.world })
  unfolding module_gc_callback
  module_gc_callback-freed s = ap (λ t. ([], t)) (destroy_unreachable-freed s.unreachable s refl)

  -- At the end of the marking, the exports, the scope and the script object of each module that a
  -- name leads to and that is not loaded have been marked, unless they are NULL.
  pub module_gc_callback_lem :
      (k : Name) (x : ℕ) (s : State T W)
      → tree.find k s.memo ≢ 0
      → (s.handles (tree.find k s.memo)).loaded ≡ false
      → x ≢ 0
      → PartOf (s.handles (tree.find k s.memo)) x
      → ¬ Lacks x (module_gc_callback tree rel mark_end s).0
  unfolding module_gc_callback
  module_gc_callback_lem k x s known un ne part =
      mark_modules_part (tree.nodes s.memo) s (tree.find k s.memo) x
        (tree.find-nodes k s.memo known) un ne part
