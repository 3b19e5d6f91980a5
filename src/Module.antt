-- ===== src/Module.antt =====
-- gpsee_modules.c: the handles of a realm's modules. A handle is an address in `handles`; NULL is 0.
-- `calloc` gives the next address that was never used, or NULL. The realm is not NULL, names are
-- lists of bytes, and `JS_strdup` and the copies of names succeed. A release build.
pub mod Engine
pub mod Scope
pub mod Memo
pub mod Release
pub mod Disk
pub mod Load
pub mod Shutdown
pub mod Cleanup
pub mod Collect
use gpsee.Base.{
  ℕ, suc, ◌+◌, ◌-◌, Bool, true, false, List, [], ◌∷◌, ◌≡◌, ◌≢◌, not, ◌&&◌, ◌==◌, if◌then◌else◌,
  Option,
}
use gpsee.Base.Name.{Name, same_name}
use gpsee.Util.Path.{Lacks}

-- `struct moduleHandle` without the fields of the tree; `loaded` is the bit `mhf_loaded` of `flags`,
-- and the list that `next` links is `unreachable` below.
pub record Handle : Type 0 where
  pub cname : Name
  pub dso : ℕ
  pub init : ℕ
  pub fini : ℕ
  pub exports : ℕ
  pub scope : ℕ
  pub script : ℕ
  pub scrobj : ℕ
  pub loaded : Bool
  pub released : Bool

abbrev pub blank : Handle
blank = record {
  cname = [];
  dso = 0;
  init = 0;
  fini = 0;
  exports = 0;
  scope = 0;
  script = 0;
  scrobj = 0;
  loaded = false;
  released = false;
}

-- The splay tree of freebsd_tree.h, compared by the names of its nodes: SPLAY_FIND, SPLAY_INSERT,
-- which keeps a node of the same name, SPLAY_REMOVE, which removes the node of that name, and the
-- nodes in the order of SPLAY_FOREACH, with every node that can be found.
pub record Splay (T : Type 0) : Type 0 where
  pub find : Name → T → ℕ
  pub insert : Name → ℕ → T → T
  pub remove : Name → T → T
  pub nodes : T → List ℕ
  pub find-insert :
      (j k : Name) (p : ℕ) (t : T)
      → find j (insert k p t)
        ≡ (if same_name j k then (if find k t == 0 then p else find k t) else find j t)
  pub find-remove :
      (j k : Name) (t : T) → find j (remove k t) ≡ (if same_name j k then 0 else find j t)
  pub find-nodes : (k : Name) (t : T) → find k t ≢ 0 → ¬ Lacks (find k t) (nodes t)

-- What the functions read and change: of `gpsee_realm_t` the fields `modules`,
-- `unreachableModule_llist`, `userModulePath` and `requireDotMain`; the private slots of the scopes,
-- as the module that they name; how often this thread has taken the require lock; all else.
pub record State (T W : Type 0) : Type 0 where
  pub handles : ℕ → Handle
  pub top : ℕ
  pub memo : T
  pub unreachable : List ℕ
  pub scope_info : ℕ → ℕ
  pub user_path : ℕ
  pub require_main : ℕ
  pub lock_depth : ℕ
  pub world : W

abbrev pub update {ℓ} : {A : Type ℓ} → (ℕ → A) → ℕ → A → ℕ → A
update f p a q = if q == p then a else f q

module _ {T W : Type 0} where
  abbrev pub write : ℕ → Handle → State T W → State T W
  write p h s = record s { handles = update s.handles p h }

-- A call of `module->fini` with the module, its exports and the last argument.
abbrev pub Fini : Type 0 → Type 0 → Type 0
Fini T W = ℕ → ℕ → Bool → State T W → Bool × State T W

abbrev pub has_fini : Handle → Bool
has_fini h = h.loaded && (not (h.exports == 0) && not (h.fini == 0))

module _ {T W : Type 0} (fini : Fini T W) where
  -- The call of the fini function; a module that could be finished has it no more.
  unfoldable pub finish : ℕ → State T W → State T W
  finish p s =
      let h = s.handles p in
      let (done, s₁) = fini h.fini h.exports true s in
      elim done [ true ↦ write p (record (s₁.handles p) { fini = 0 }) s₁ | false ↦ s₁ ]

  -- The fields are read again behind the call.
  unfoldable pub mark_unused : ℕ → State T W → State T W
  mark_unused p s =
      let s₁ : State T W = elim (has_fini (s.handles p)) [ true ↦ finish p s | false ↦ s ] in
      write p (record (s₁.handles p) { scope = 0; scrobj = 0; exports = 0; loaded = false }) s₁

module _ {T W : Type 0} (tree : Splay T) (fini : Fini T W) where
  unfoldable pub release : ℕ → State T W → State T W
  release p s = elim (s.handles p).released [
    | true ↦ s
    | false ↦
        let s₁ = write p (record (s.handles p) { released = true }) s in
        let s₂ = record s₁ { memo = tree.remove (s₁.handles p).cname s₁.memo } in
        let s₃ = mark_unused fini p s₂ in record s₃ { unreachable = p ∷ s₃.unreachable }
  ]

  -- The private slot of the scope is not cleared.
  unfoldable pub finalize_scope : ℕ → State T W → State T W
  finalize_scope scope s = elim (s.scope_info scope == 0) [
    | true ↦ s
    | false ↦ release (s.scope_info scope) s
  ]
