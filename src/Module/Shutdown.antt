-- ===== src/Module/Shutdown.antt =====
-- gpsee_modules.c: the loop of `gpsee_shutdownModuleSystem` over the fini functions of modules.
-- SPLAY_FOREACH visits the nodes that the tree has when it begins.
pub mod Total
use gpsee.Base.{ℕ, zero, suc, ◌+◌, Bool, true, false, List, [], ◌∷◌, Option, none, some, ◌==◌}
use gpsee.Module.{Handle, Splay, State, write, Fini, mark_unused}

module _ {T W : Type 0} (fini : Fini T W) where
  -- A module in the first loop, and by how much it raises `danglingCount`.
  unfoldable pub fini_module : ℕ → State T W → ℕ × State T W
  fini_module p s =
      let h = s.handles p in
      elim (h.fini == 0) [
        | true ↦ (0, mark_unused fini p s)
        | false ↦
            let (done, s₁) = fini h.fini h.exports false s in
            elim done [
              | false ↦ (1, s₁)
              | true ↦ (0, mark_unused fini p (write p (record (s₁.handles p) { fini = 0 }) s₁))
            ]
      ]

  unfoldable pub fini_modules : List ℕ → State T W → ℕ × State T W
  fini_modules [] s = (0, s)
  fini_modules (p ∷ ps) s =
      let (n, s₁) = fini_module p s in let (m, s₂) = fini_modules ps s₁ in (n + m, s₂)

  unfoldable pub force_module : ℕ → State T W → State T W
  force_module p s =
      let h = s.handles p in
      elim (h.fini == 0) [
        | true ↦ s
        | false ↦
            let s₁ = (fini h.fini h.exports true s).1 in
            mark_unused fini p (write p (record (s₁.handles p) { fini = 0 }) s₁)
      ]

  unfoldable pub force_modules : List ℕ → State T W → State T W
  force_modules [] s = s
  force_modules (p ∷ ps) s = force_modules ps (force_module p s)

-- With `lastDanglingCount` as it will be, on fuel; `gc` is `JS_GC`.
module _ {T W : Type 0} (tree : Splay T) (fini : Fini T W) (gc : State T W → State T W) where
  unfoldable pub shutdown_loop : ℕ → ℕ → State T W → Option (State T W)
  shutdown_loop zero last s = none
  shutdown_loop (suc fuel) last s =
      let (dangling, s₁) = fini_modules fini (tree.nodes s.memo) s in
      elim (dangling == 0) [
        | true ↦ some s₁
        | false ↦
            let s₂ = gc s₁ in
            elim (dangling == last) [
              | true ↦ some (force_modules fini (tree.nodes s₂.memo) s₂)
              | false ↦ shutdown_loop fuel dangling s₂
            ]
      ]
