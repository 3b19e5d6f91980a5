-- ===== src/Module/Load/Failed.antt =====
-- A module that could not be loaded is forgotten (gpsee_modules.c): the next `require` starts again.
use gpsee.Base.{ℕ, ◌≡◌, ◌≢◌, refl, inl, inr, true, arith, ◌==◌, Bool-cases}
use gpsee.Base.Name.{Name, same_name_refl}
use gpsee.Module.{Handle, Splay, State, write, release}
use gpsee.Module.Memo.{IsMemo}
use gpsee.Module.Release.{IsCalm, release_done, release-Released}
use gpsee.Module.Load.{Program, exception, run_init, run_script, initialize_module, finish_load}

module _ {T W : Type 0} (tree : Splay T) where
  IsMemo-write :
      (p : ℕ) (h : Handle) (s : State T W)
      → h.cname ≡ (s.handles p).cname
      → h.released ≡ (s.handles p).released
      → IsMemo tree s
      → IsMemo tree (write p h s)
  IsMemo-write p h s n r m k =
      let old = m k in
      record {
        named = ground (arith, old.named);
        live = ground (arith, old.live);
        allocated = old.allocated;
      }

  -- What `require` relies on: the code of modules leaves the memo a memo, and their fini functions
  -- leave the book-keeping alone.
  pub record IsTidy (prog : Program T W) : Type 0 where
    pub calm : IsCalm prog.fini
    pub init : (f x : ℕ) (s : State T W) → IsMemo tree s → IsMemo tree (prog.init f x s)
    pub script : (x c : ℕ) (s : State T W) → IsMemo tree s → IsMemo tree (prog.script x c s).1

  module _ (prog : Program T W) (tidy : IsTidy prog) (p : ℕ) where
    release_forgets :
        (s : State T W)
        → p ≢ 0
        → IsMemo tree s
        → (k : Name) → tree.find k (release tree prog.fini p s).memo ≢ p
    release_forgets s ne m k = elim (Bool-cases (s.handles p).released) [
      | inl h ↦ rw (release_done tree prog.fini tidy.calm p s h) (ground (arith, (m k).live, h))
      | inr h ↦
          let r = release-Released tree prog.fini tidy.calm p s h in
          ground (
            arith,
            r.memo,
            tree.find-remove k (s.handles p).cname s.memo,
            (m k).named,
            same_name_refl k,
          )
    ]

    run_init-IsMemo : (s : State T W) → IsMemo tree s → IsMemo tree (run_init prog p s)
    unfolding run_init
    run_init-IsMemo s m =
        let h = s.handles p in
        elim (Bool-cases (h.init == 0)) [
          | inl e ↦ rw (e, run_init) m
          | inr e ↦ rw (e, run_init) (tidy.init h.init h.exports s m)
        ]

    run_script-IsMemo : (s : State T W) → IsMemo tree s → IsMemo tree (run_script prog p s).1
    unfolding run_script
    run_script-IsMemo s m =
        let h = s.handles p in
        let s₁ = write p (record h { script = 0 }) s in
        let s₂ = (prog.script h.scope h.script s₁).1 in
        elim (Bool-cases (h.script == 0)) [
          | inl e ↦ rw (e, run_script) m
          | inr e ↦
              rw (e, run_script)
                (IsMemo-write p (record (s₂.handles p) { scrobj = 0 }) s₂ refl refl
                  (tidy.script h.scope h.script s₁
                    (IsMemo-write p (record h { script = 0 }) s refl refl m)))
        ]

    -- Where the code of modules leaves the memo a memo, its fini functions leave the memo, the list of
    -- the unreachable modules, the depth of the lock, the names and released flags of handles and their
    -- number alone, and a call of `require` throws when it has found
    -- a handle, as the module has no code or its code threw, then no name leads to this handle any
    -- more.
    pub finish_load_forgets :
        (s : State T W)
        → p ≢ 0
        → IsMemo tree s
        → (finish_load tree prog p s).0 ≡ exception
        → (k : Name) → tree.find k (finish_load tree prog p s).1.memo ≢ p
    unfolding finish_load initialize_module
    finish_load_forgets s ne m failed k =
        let s₁ = write p (record (s.handles p) { loaded = true }) s in
        let m₁ = IsMemo-write p (record (s.handles p) { loaded = true }) s refl refl m in
        let s₂ = (run_script prog p (run_init prog p s₁)).1 in
        let m₂ = run_script-IsMemo (run_init prog p s₁) (run_init-IsMemo s₁ m₁) in
        ground (arith, failed, release_forgets s₁ ne m₁ k, release_forgets s₂ ne m₂ k)
