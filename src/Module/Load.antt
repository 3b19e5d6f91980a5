-- ===== src/Module/Load.antt =====
-- gpsee_modules.c: `require`, that is `gpsee_loadModule`, and the modules that are linked in.
pub mod Depth
pub mod Again
pub mod Failed
use gpsee.Base.{
  ℕ, suc, ◌+◌, ◌-◌, Bool, true, false, not, ◌&&◌, List, [], ◌∷◌, Option, none, some, ◌==◌, length,
}
use gpsee.Base.Name.{Name, same_name}
use gpsee.Module.{Handle, Splay, State, write, Fini, release}
use gpsee.Module.Engine.{Engine, Realm, M}
use gpsee.Module.Scope.{acquire}
use gpsee.Module.Disk.{Search, threw, absent, found, load_disk_module}

-- The code of modules, which may do anything, `require` included: `module->init` with the exports;
-- a script with its scope, and whether it ends without an exception.
pub record Program (T W : Type 0) : Type 0 where
  pub fini : Fini T W
  pub init : ℕ → ℕ → State T W → State T W
  pub script : ℕ → ℕ → State T W → Bool × State T W

-- A row of `internalModules`, which modules.h lists: name, init, fini.
pub record Internal : Type 0 where
  pub name : Name
  pub init : ℕ
  pub fini : ℕ

unfoldable pub internal_of : Name → List Internal → Option Internal
internal_of name [] = none
internal_of name (m ∷ ms) = elim (same_name m.name name) [
  | true ↦ some m
  | false ↦ internal_of name ms
]

-- The program reads through NULL, an exception, the exports.
pub data Loaded : Type 0 where
  crashed exception : Loaded
  exports : ℕ → Loaded

module _ {T W : Type 0} (prog : Program T W) where
  unfoldable pub run_init : ℕ → State T W → State T W
  run_init p s =
      let h = s.handles p in elim (h.init == 0) [ true ↦ s | false ↦ prog.init h.init h.exports s ]

  unfoldable pub run_script : ℕ → M T W Bool
  run_script p s =
      let h = s.handles p in
      elim (h.script == 0) [
        | true ↦ (true, s)
        | false ↦
            let s₁ = write p (record h { script = 0 }) s in
            let (done, s₂) = prog.script h.scope h.script s₁ in
            (done, write p (record (s₂.handles p) { scrobj = 0 }) s₂)
      ]

  unfoldable pub initialize_module : ℕ → M T W Bool
  initialize_module p s = run_script p (run_init p s)

module _ {T W : Type 0} where
  -- The depth of the lock, as this thread sees it.
  abbrev pub require_lock : State T W → State T W
  require_lock s = record s { lock_depth = s.lock_depth + 1 }

  abbrev pub require_unlock : State T W → State T W
  require_unlock s = record s { lock_depth = s.lock_depth - 1 }

module _ {T W : Type 0} (tree : Splay T) (prog : Program T W) where
  -- From the test of `mhf_loaded` on.
  unfoldable pub finish_load : ℕ → M T W Loaded
  finish_load p s = elim (s.handles p).loaded [
    | true ↦ (exports (s.handles p).exports, require_unlock s)
    | false ↦
        let s₁ = write p (record (s.handles p) { loaded = true }) s in
        elim ((s₁.handles p).init == 0 && (s₁.handles p).script == 0) [
          | true ↦ (exception, require_unlock (release tree prog.fini p s₁))
          | false ↦
              let (done, s₂) = initialize_module prog p s₁ in
              elim done [
                | false ↦ (exception, require_unlock (release tree prog.fini p s₂))
                | true ↦ (exports (s₂.handles p).exports, require_unlock s₂)
              ]
        ]
  ]

module _ {T W : Type 0} (tree : Splay T) (prog : Program T W) (e : Engine W) (realm : Realm)
    (internal : List Internal) where
  -- The inner `none` is a module that is not internal, the outer one a read through NULL.
  unfoldable pub load_internal_module : Name → M T W (Option (Option ℕ))
  load_internal_module name s = elim (internal_of name internal) [
    | none ↦ (some none, s)
    | some m ↦
        let (p, s₁) = acquire tree prog.fini e realm name 0 s in
        elim (p == 0) [
          | true ↦ (none, s₁)
          | false ↦ elim (s₁.handles p).loaded [
            | true ↦ (some (some p), s₁)
            | false ↦
                (some (some p), write p (record (s₁.handles p) { init = m.init; fini = m.fini }) s₁)
          ]
        ]
  ]

  -- With the lock: internal modules come first, then those on disk.
  unfoldable pub load_named : ℕ → Name → M T W Loaded
  load_named parent name s =
      let (inside, s₁) = load_internal_module name s in
      elim inside [
        | none ↦ (crashed, s₁)
        | some (some p) ↦ finish_load tree prog p s₁
        | some none ↦
            let (r, s₂) = load_disk_module tree prog.fini e realm parent name s₁ in
            elim r [
              | threw ↦ (exception, require_unlock s₂)
              | absent ↦ (crashed, s₂)
              | found p ↦ finish_load tree prog p s₂
            ]
      ]

  -- `argc`, the module of the `require` function that is called, and the first argument.
  unfoldable pub load_module : ℕ → ℕ → Name → M T W Loaded
  load_module argc parent name s = elim (argc == 1 && not (length name == 0)) [
    | false ↦ (exception, s)
    | true ↦ load_named parent name (require_lock s)
  ]
