-- ===== src/Module/Collect.antt =====
-- gpsee_modules.c: `moduleGCCallback`, what it marks and which handles it destroys.
pub mod Marked
use gpsee.Base.{ℕ, Bool, true, false, not, ◌&&◌, ◌||◌, List, [], ◌∷◌, ◌++◌, ◌==◌, if◌then◌else◌}
use gpsee.Module.{Handle, Splay, State}

-- JSGC_FINALIZE_END, JSGC_MARK_END and the other phases.
pub data Status : Type 0 where
  finalize_end mark_end other : Status

-- dlclose, and the memory of a handle and of its name.
pub record Freeing (W : Type 0) : Type 0 where
  pub dlclose : ℕ → W → W
  pub free_handle : ℕ → W → W

abbrev pub mark_exports : Handle → List ℕ
mark_exports h =
    if not (h.exports == 0) && (not h.loaded || not (h.fini == 0)) then h.exports ∷ [] else []

abbrev pub mark_scope : Handle → List ℕ
mark_scope h = if not (h.scope == 0) && not h.loaded then h.scope ∷ [] else []

abbrev pub mark_scrobj : Handle → List ℕ
mark_scrobj h = if h.scrobj == 0 then [] else h.scrobj ∷ []

-- The things that are marked for a module, in that order.
unfoldable pub marks : Handle → List ℕ
marks h = mark_exports h ++ (mark_scope h ++ mark_scrobj h)

module _ {T W : Type 0} (tree : Splay T) (rel : Freeing W) where
  unfoldable pub destroy_module_handle : ℕ → State T W → State T W
  destroy_module_handle p s =
      let d = (s.handles p).dso in
      let w = if d == 0 then s.world else rel.dlclose d s.world in
      record s { world = rel.free_handle p w }

  -- The loop takes each handle off the list.
  unfoldable pub destroy_unreachable : List ℕ → State T W → State T W
  destroy_unreachable [] s = s
  destroy_unreachable (p ∷ ps) s =
      destroy_unreachable ps (record (destroy_module_handle p s) { unreachable = ps })

  unfoldable pub mark_modules : List ℕ → State T W → List ℕ
  mark_modules [] s = []
  mark_modules (p ∷ ps) s = marks (s.handles p) ++ mark_modules ps s

  -- What is marked, and the state.
  unfoldable pub module_gc_callback : Status → State T W → List ℕ × State T W
  module_gc_callback finalize_end s = ([], destroy_unreachable s.unreachable s)
  module_gc_callback mark_end s = (mark_modules (tree.nodes s.memo) s, s)
  module_gc_callback other s = ([], s)
