-- ===== src/Module/Memo.antt =====
-- The memo of module handles (gpsee_modules.c): `acquireModuleHandle` gives one handle for each name.
use gpsee.Base.{
  ℕ, ◌+◌, ◌≤◌, ◌≡◌, ◌≢◌, refl, ◌∙◌, ap, fun_ext, inl, inr, false, arith, ◌==◌, ==_iff, Bool-cases,
}
use gpsee.Base.Name.{Name, same_name, same_name_refl, same_name_eq}
use gpsee.Module.{Handle, Splay, State, write, Fini, mark_unused}
use gpsee.Module.Engine.{Engine, Realm}
use gpsee.Module.Scope.{scope_for, new_handle, memoize, acquire}
use gpsee.Module.Scope.Frame.{Frame, Frame-refl, new_module_scope-Frame}

module _ {T W : Type 0} (tree : Splay T) where
  -- What a name leads to has that name, has not been released, and is a handle that was allocated.
  pub record IsEntry (s : State T W) (k : Name) : Type 0 where
    pub named : tree.find k s.memo ≢ 0 → (s.handles (tree.find k s.memo)).cname ≡ k
    pub live : tree.find k s.memo ≢ 0 → (s.handles (tree.find k s.memo)).released ≡ false
    pub allocated : tree.find k s.memo ≤ s.top

  abbrev pub IsMemo : State T W → Type 0
  IsMemo s = (k : Name) → IsEntry s k

  -- What a call of `acquireModuleHandle` for a name changes.
  pub record Acquired (cname : Name) (s : State T W) (p : ℕ) (u : State T W) : Type 0 where
    pub known : p ≢ 0 → tree.find cname u.memo ≡ p
    pub named : p ≢ 0 → (u.handles p).cname ≡ cname
    pub fails : p ≡ 0 → tree.find cname u.memo ≡ 0
    pub others : (j : Name) → same_name j cname ≡ false → tree.find j u.memo ≡ tree.find j s.memo
    pub kept : (q : ℕ) → q ≤ s.top → u.handles q ≡ s.handles q
    pub unreachable : u.unreachable ≡ s.unreachable
    pub lock_depth : u.lock_depth ≡ s.lock_depth
    pub memo : (k : Name) → IsEntry u k

module _ {T W : Type 0} (p : ℕ) (h : Handle) (s : State T W) where
  pub read-write : (write p h s).handles p ≡ h
  read-write = ground arith

  pub write-write : (g : Handle) → write p g (write p h s) ≡ write p g s
  write-write g = ap (λ (t : ℕ → Handle). record s { handles = t }) (fun_ext λ q. ground arith)

abbrev pub unused : Handle → Handle
unused h = record h { scope = 0; scrobj = 0; exports = 0; loaded = false }

module _ {T W : Type 0} (fini : Fini T W) where
  -- A module that is not loaded is marked without a call of its fini function.
  pub mark_unused_unloaded :
      (p : ℕ) (s : State T W)
      → (s.handles p).loaded ≡ false
      → mark_unused fini p s ≡ write p (unused (s.handles p)) s
  unfolding mark_unused
  mark_unused_unloaded p s h = rw (h, mark_unused)

  mark_unused-write :
      (p : ℕ) (h : Handle) (s : State T W)
      → h.loaded ≡ false
      → mark_unused fini p (write p h s) ≡ write p (unused h) s
  mark_unused-write p h s un =
      mark_unused_unloaded p (write p h s) (ap Handle.loaded (read-write p h s) ∙ un)
      ∙ (ap (λ (g : Handle). write p (unused g) (write p h s)) (read-write p h s)
          ∙ write-write p h s (unused h))

module _ {T W : Type 0} (tree : Splay T) (fini : Fini T W) (e : Engine W) (realm : Realm) where
  module _ (cname : Name) (s : State T W) (fresh : tree.find cname s.memo ≡ 0)
      (m : IsMemo tree s) where
    -- The handle is new and has its name; then its scope is set up.
    module _ (u : State T W) (f : Frame (s.top + 1) (new_handle cname s) u) where
      own_name : (u.handles (s.top + 1)).cname ≡ cname
      unfolding new_handle
      own_name = ground (arith, f.own)

      unloaded : (u.handles (s.top + 1)).loaded ≡ false
      unfolding new_handle
      unloaded = ground (arith, f.own)

      abbrev failed : State T W
      failed = write (s.top + 1) (unused (u.handles (s.top + 1))) u

      abbrev inserted : ℕ → State T W
      inserted scope =
          record (write (s.top + 1) (record (u.handles (s.top + 1)) { scope = scope }) u) {
            memo = tree.insert (u.handles (s.top + 1)).cname (s.top + 1) u.memo;
          }

      IsEntry-failed : (k : Name) → IsEntry tree failed k
      unfolding new_handle
      IsEntry-failed k =
          let old = m k in
          let same = f.others (tree.find k s.memo) in
          record {
            named = ground (arith, f.memo, same, old.named, old.allocated);
            live = ground (arith, f.memo, same, old.live, old.allocated);
            allocated = ground (arith, f.memo, f.top, old.allocated);
          }

      memo_failed : Acquired tree cname s 0 failed
      unfolding new_handle
      memo_failed = record {
        known = λ ne. absurd (ne refl);
        named = λ ne. absurd (ne refl);
        fails = ground (arith, f.memo);
        others = ground (arith, f.memo);
        kept = λ q le. ground (arith, f.others q);
        unreachable = f.unreachable;
        lock_depth = f.lock_depth;
        memo = IsEntry-failed;
      }

      IsEntry-inserted : (scope : ℕ) (k : Name) → IsEntry tree (inserted scope) k
      unfolding new_handle
      IsEntry-inserted scope k =
          let old = m k in
          let same = f.others (tree.find k s.memo) in
          let now = tree.find-insert k cname (s.top + 1) u.memo in
          let eq = same_name_eq k cname in
          record {
            named =
                ground (arith, now, own_name, f.memo, f.own, same, old.named, old.allocated, eq);
            live = ground (arith, now, own_name, f.memo, f.own, same, old.live, old.allocated, eq);
            allocated = ground (arith, now, own_name, f.memo, f.top, old.allocated);
          }

      memo_inserted : (scope : ℕ) → Acquired tree cname s (s.top + 1) (inserted scope)
      unfolding new_handle
      memo_inserted scope = record {
        known = λ ne. ground (
          arith,
          tree.find-insert cname cname (s.top + 1) u.memo,
          same_name_refl cname,
          f.memo,
          own_name,
        );
        named = ground (arith, f.own);
        fails = λ z. absurd (omega arith);
        others =
            λ j ne. ground (arith, tree.find-insert j cname (s.top + 1) u.memo, f.memo, own_name);
        kept = λ q le. ground (arith, f.others q);
        unreachable = f.unreachable;
        lock_depth = f.lock_depth;
        memo = IsEntry-inserted scope;
      }

      memoize-Acquired :
          (scope : ℕ)
          → Acquired tree cname s
              (memoize tree fini e realm (s.top + 1) scope u).0
              (memoize tree fini e realm (s.top + 1) scope u).1
      unfolding memoize
      memoize-Acquired scope = elim (Bool-cases (scope == 0)) [
        | inl h ↦
            let g : Handle = record (u.handles (s.top + 1)) { scope = scope } in
            rw (h, memoize, mark_unused-write fini (s.top + 1) g u unloaded) memo_failed
        | inr h ↦
            let g : Handle = record (u.handles (s.top + 1)) { scope = scope } in
            rw (h, memoize, ap Handle.cname (read-write (s.top + 1) g u)) (memo_inserted scope)
      ]

  pub scope_for-Frame :
      (p scope : ℕ) (s : State T W) → Frame p s (scope_for tree fini e realm p scope s).1
  unfolding scope_for
  scope_for-Frame p scope s = elim (Bool-cases (scope == 0)) [
    | inl h ↦ rw (h, scope_for) (new_module_scope-Frame e p realm s)
    | inr h ↦ rw (h, scope_for) (Frame-refl p s)
  ]

  -- A name that leads to a handle.
  pub acquire_known :
      (cname : Name) (scope : ℕ) (s : State T W) (p : ℕ)
      → p ≢ 0
      → tree.find cname s.memo ≡ p
      → acquire tree fini e realm cname scope s ≡ (p, s)
  unfolding acquire
  acquire_known cname scope s p ne h = ground arith

  abbrev in_world : State T W → W → State T W
  in_world s w = record s { world = w }

  IsMemo-world : (s : State T W) (w : W) → IsMemo tree s → IsMemo tree (in_world s w)
  IsMemo-world s w m k = record {
    named = (m k).named;
    live = (m k).live;
    allocated = (m k).allocated;
  }

  Acquired-world :
      (cname : Name) (s u : State T W) (p : ℕ) (w : W)
      → Acquired tree cname (in_world s w) p u
      → Acquired tree cname s p u
  Acquired-world cname s u p w a = record {
    known = a.known;
    named = a.named;
    fails = a.fails;
    others = a.others;
    kept = a.kept;
    unreachable = a.unreachable;
    lock_depth = a.lock_depth;
    memo = a.memo;
  }

  -- Whatever memo it is called with, `acquireModuleHandle` keeps it a memo; the name leads to the
  -- handle that is returned, or to none if that is NULL; no other name and no older handle changes.
  pub acquire-Acquired :
      (cname : Name) (scope : ℕ) (s : State T W)
      → IsMemo tree s
      → Acquired tree cname s
          (acquire tree fini e realm cname scope s).0
          (acquire tree fini e realm cname scope s).1
  unfolding acquire
  acquire-Acquired cname scope s m = elim (Bool-cases (tree.find cname s.memo == 0)) [
    | inr h ↦
        rw (h, acquire)
          (record {
            known = λ ne. refl;
            named = (m cname).named;
            fails = λ z. z;
            others = λ j ne. refl;
            kept = λ q le. refl;
            unreachable = refl;
            lock_depth = refl;
            memo = m;
          })
    | inl h ↦
        let w = (e.calloc s.world).1 in
        let none_yet : tree.find cname s.memo ≡ 0 = (==_iff (tree.find cname s.memo) 0).0 h in
        elim (Bool-cases (e.calloc s.world).0) [
          | inr f ↦
              rw (h, f, acquire)
                (record {
                  known = λ ne. absurd (ne refl);
                  named = λ ne. absurd (ne refl);
                  fails = λ z. none_yet;
                  others = λ j ne. refl;
                  kept = λ q le. refl;
                  unreachable = refl;
                  lock_depth = refl;
                  memo = IsMemo-world s w m;
                })
          | inl t ↦
              let s₁ = in_world s w in
              let made = scope_for tree fini e realm (s.top + 1) scope (new_handle cname s₁) in
              rw (h, t, acquire)
                (Acquired-world cname s (memoize tree fini e realm (s.top + 1) made.0 made.1).1
                  (memoize tree fini e realm (s.top + 1) made.0 made.1).0 w
                  (memoize-Acquired cname s₁ none_yet (IsMemo-world s w m) made.1
                    (scope_for-Frame (s.top + 1) scope (new_handle cname s₁)) made.0))
        ]
  ]

  -- Where a call gave a handle, a second call with the same name gives the same handle and changes
  -- nothing, whatever scope it is given.
  pub acquire-acquire :
      (cname : Name) (scope scope' : ℕ) (s : State T W)
      → IsMemo tree s
      → (acquire tree fini e realm cname scope s).0 ≢ 0
      → acquire tree fini e realm cname scope' (acquire tree fini e realm cname scope s).1
        ≡ acquire tree fini e realm cname scope s
  acquire-acquire cname scope scope' s m ne =
      let a = acquire-Acquired cname scope s m in
      acquire_known cname scope' (acquire tree fini e realm cname scope s).1
        (acquire tree fini e realm cname scope s).0 ne (a.known ne)
