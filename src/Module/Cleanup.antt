-- ===== src/Module/Cleanup.antt =====
-- `gpsee_moduleSystemCleanup` of gpsee_modules.c, behind the shutdown. SPLAY_NEXT is asked before a
-- node is removed, so the loop visits the nodes that the tree had at the start.
pub mod Emptied
use gpsee.Base.{ℕ, ◌+◌, Bool, true, false, List, [], ◌∷◌, Option, none, some, ◌==◌, if◌then◌else◌}
use gpsee.Module.{Handle, Splay, State, update, Fini, release, finalize_scope}

module _ {T W : Type 0} (tree : Splay T) (fini : Fini T W) where
  -- JS_SetPrivate of NULL is a read through NULL, `none`.
  unfoldable pub clear_private : ℕ → State T W → Option (State T W)
  clear_private scope s = elim (scope == 0) [
    | true ↦ none
    | false ↦ some (record s { scope_info = update s.scope_info scope 0 })
  ]

  unfoldable pub cleanup_module : ℕ → State T W → Option (State T W)
  cleanup_module p s = elim ((s.handles p).scope == 0) [
    | true ↦ some (release tree fini p s)
    | false ↦
        let s₁ = finalize_scope tree fini (s.handles p).scope s in
        clear_private (s₁.handles p).scope s₁
  ]

  unfoldable pub cleanup_modules : List ℕ → State T W → Option (State T W)
  cleanup_modules [] s = some s
  cleanup_modules (p ∷ ps) s = elim (cleanup_module p s) [
    | none ↦ none
    | some s₁ ↦ cleanup_modules ps s₁
  ]

  unfoldable pub module_system_cleanup : State T W → Option (State T W)
  module_system_cleanup s = cleanup_modules (tree.nodes s.memo) s
