-- ===== src/Module/Load/Depth.antt =====
-- `require` (`gpsee_loadModule` of gpsee_modules.c) gives the require lock back on every path.
use gpsee.Base.{ℕ, ◌-◌, ◌≡◌, ◌≢◌, ◌∙◌, inl, inr, true, List, arith, Option-cases}
use gpsee.Base.Name.{Name}
use gpsee.Module.{Splay, State, write}
use gpsee.Module.Engine.{Engine, Realm}
use gpsee.Module.Release.{IsCalm}
use gpsee.Module.Disk.{load_disk_module}
use gpsee.Module.Disk.Depth.{acquire-depth, release-depth, load_disk_module-depth, Search-cases}
use gpsee.Module.Load.{
  Program, Internal, internal_of, crashed, load_internal_module, run_init, run_script,
  initialize_module, require_lock, finish_load, load_named, load_module,
}

-- What `require` relies on: the code of a module gives back every lock that it takes.
pub record IsBalanced {T W : Type 0} (prog : Program T W) : Type 0 where
  pub calm : IsCalm prog.fini
  pub init : (f x : ℕ) (s : State T W) → (prog.init f x s).lock_depth ≡ s.lock_depth
  pub script : (x c : ℕ) (s : State T W) → (prog.script x c s).1.lock_depth ≡ s.lock_depth

module _ {T W : Type 0} (tree : Splay T) (prog : Program T W) (balanced : IsBalanced prog) where
  run_init-depth : (p : ℕ) (s : State T W) → (run_init prog p s).lock_depth ≡ s.lock_depth
  unfolding run_init
  run_init-depth p s = let h = s.handles p in ground (arith, balanced.init h.init h.exports s)

  run_script-depth : (p : ℕ) (s : State T W) → (run_script prog p s).1.lock_depth ≡ s.lock_depth
  unfolding run_script
  run_script-depth p s =
      let h = s.handles p in
      ground (arith, balanced.script h.scope h.script (write p (record h { script = 0 }) s))

  initialize_module-depth :
      (p : ℕ) (s : State T W) → (initialize_module prog p s).1.lock_depth ≡ s.lock_depth
  unfolding initialize_module
  initialize_module-depth p s = run_script-depth p (run_init prog p s) ∙ run_init-depth p s

  module _ (e : Engine W) (realm : Realm) where
    finish_load-depth :
        (p : ℕ) (s : State T W) → (finish_load tree prog p s).1.lock_depth ≡ s.lock_depth - 1
    unfolding finish_load
    finish_load-depth p s =
        let s₁ = write p (record (s.handles p) { loaded = true }) s in
        let s₂ = (initialize_module prog p s₁).1 in
        ground (
          arith,
          initialize_module-depth p s₁,
          release-depth tree prog.fini e realm balanced.calm p s₁,
          release-depth tree prog.fini e realm balanced.calm p s₂,
        )

    load_internal_module-depth :
        (internal : List Internal) (name : Name) (s : State T W)
        → (load_internal_module tree prog e realm internal name s).1.lock_depth ≡ s.lock_depth
    unfolding load_internal_module
    load_internal_module-depth internal name s = elim (Option-cases (internal_of name internal)) [
      | inl h ↦ rw (h, load_internal_module)
      | inr (m, h) ↦ ground (arith, acquire-depth tree prog.fini e realm balanced.calm name 0 s)
    ]

    load_named-depth :
        (internal : List Internal) (parent : ℕ) (name : Name) (s : State T W)
        → (load_named tree prog e realm internal parent name s).0 ≢ crashed
        → (load_named tree prog e realm internal parent name s).1.lock_depth ≡ s.lock_depth - 1
    unfolding load_named
    load_named-depth internal parent name s ok =
        let first = load_internal_module-depth internal name s in
        let (inside, s₁) = load_internal_module tree prog e realm internal name s in
        let second = load_disk_module-depth tree prog.fini e realm balanced.calm parent name s₁ in
        let (r, s₂) = load_disk_module tree prog.fini e realm parent name s₁ in
        elim (Option-cases inside) [
          | inl h ↦ absurd (ok (rw (h, load_named)))
          | inr (o, h) ↦ elim (Option-cases o) [
            | inr (p, k) ↦ rw (h, load_named, k) (ground (arith, first, finish_load-depth p s₁))
            | inl k ↦ elim (Search-cases r) [
              | inl (p, j) ↦
                  rw (h, load_named, k, j) (ground (arith, first, second, finish_load-depth p s₂))
              | inr (inl j) ↦ rw (h, load_named, k, j) (ground (arith, first, second))
              | inr (inr j) ↦ absurd (ok (rw (h, load_named, k, j)))
            ]
          ]
        ]

    -- Where the code of modules gives back every lock that it takes, and its fini functions leave the
    -- memo, the list of the unreachable modules, the names and released flags of handles and their
    -- number alone as well, a call of `require` that does not crash gives back the require lock: its depth is what it was, whether the call returns
    -- exports or throws, whatever its arguments.
    pub load_module-depth :
        (internal : List Internal) (argc parent : ℕ) (name : Name) (s : State T W)
        → (load_module tree prog e realm internal argc parent name s).0 ≢ crashed
        → (load_module tree prog e realm internal argc parent name s).1.lock_depth ≡ s.lock_depth
    unfolding load_module
    load_module-depth internal argc parent name s ok =
        ground (arith, load_named-depth internal parent name (require_lock s))
