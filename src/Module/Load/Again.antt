-- ===== src/Module/Load/Again.antt =====
-- Modules are singletons: `require` of a module that has been loaded (gpsee_modules.c).
use gpsee.Base.{
  ℕ, ◌+◌, ◌-◌, ◌≡◌, ◌≢◌, ap, true, false, ◌&&◌, List, none, some, arith, ltb, ◌==◌, length,
}
use gpsee.Base.Name.{Name}
use gpsee.Util.{path_max}
use gpsee.Module.{Splay, State}
use gpsee.Module.Engine.{Engine, Realm}
use gpsee.Module.Memo.{acquire_known}
use gpsee.Module.Disk.{
  found, codes, is_relative_path, file_name, base_dir, canonical, check_jail, strip_extension,
  identify, known_module, try_file, round, in_dir_loop, in_dir, load_disk_module,
}
use gpsee.Module.Load.{
  Program, Internal, internal_of, exports, load_internal_module, require_lock, require_unlock,
  finish_load, load_named, load_module,
}

module _ {T W : Type 0} (tree : Splay T) (prog : Program T W) (e : Engine W) (realm : Realm)
    (internal : List Internal) (parent : ℕ) (name : Name) (s : State T W) (p : ℕ) where
  relock : require_unlock (require_lock s) ≡ s
  relock =
      let e' : s.lock_depth + 1 - 1 ≡ s.lock_depth = omega arith in
      ap (λ (n : ℕ). record s { lock_depth = n }) e'

  finish_loaded :
      (s.handles p).loaded ≡ true
      → finish_load tree prog p (require_lock s) ≡ (exports (s.handles p).exports, s)
  unfolding finish_load
  finish_loaded h = ground (arith, relock)

  -- `require` of a module that is linked in and has been loaded returns its exports and changes
  -- nothing: no code of the module runs again.
  pub require_loaded_internal :
      (m : Internal)
      → (length name == 0) ≡ false
      → internal_of name internal ≡ some m
      → tree.find name s.memo ≡ p
      → p ≢ 0
      → (s.handles p).loaded ≡ true
      → load_module tree prog e realm internal 1 parent name s ≡ (exports (s.handles p).exports, s)
  unfolding load_module load_named load_internal_module
  require_loaded_internal m long listed known ne h = ground (
    arith,
    listed,
    acquire_known tree prog.fini e realm name 0 (require_lock s) p ne known,
    finish_loaded h,
  )

  module _ (real : Name) where
    abbrev dir : Name
    dir = base_dir realm.program_dir (s.handles parent).cname

    abbrev script : Name
    script = file_name dir name (codes "js")

    in_dir_loaded :
        (e.exists (file_name dir name realm.dso_extension) s.world) ≡ false
        → (ltb (length script) path_max && e.exists script s.world) ≡ true
        → canonical e.system script ≡ some real
        → check_jail real realm.jail ≡ true
        → tree.find (strip_extension (codes "js") real) s.memo ≡ p
        → p ≢ 0
        → (s.handles p).loaded ≡ true
        → in_dir tree prog.fini e realm name dir (require_lock s) ≡ (found p, require_lock s)
    unfolding in_dir in_dir_loop round try_file known_module identify
    in_dir_loaded no_dso there resolved jailed known ne h = ground (
      arith,
      acquire_known tree prog.fini e realm (strip_extension (codes "js") real) 0 (require_lock s) p
          ne known,
    )

    -- `require` of a relative name whose script has a real path inside of the jail, and is loaded
    -- under that path already, returns its exports and changes nothing. No shared object of the name
    -- is there, and no internal module has the name.
    pub require_loaded_relative :
        is_relative_path name ≡ true
        → (length name == 0) ≡ false
        → internal_of name internal ≡ none
        → (e.exists (file_name dir name realm.dso_extension) s.world) ≡ false
        → (ltb (length script) path_max && e.exists script s.world) ≡ true
        → canonical e.system script ≡ some real
        → check_jail real realm.jail ≡ true
        → tree.find (strip_extension (codes "js") real) s.memo ≡ p
        → p ≢ 0
        → (s.handles p).loaded ≡ true
        → load_module tree prog e realm internal 1 parent name s
          ≡ (exports (s.handles p).exports, s)
    unfolding load_module load_named load_internal_module load_disk_module
    require_loaded_relative relative long unlisted no_dso there resolved jailed known ne h =
        ground (
          arith,
          relative,
          unlisted,
          in_dir_loaded no_dso there resolved jailed known ne h,
          finish_loaded h,
        )
