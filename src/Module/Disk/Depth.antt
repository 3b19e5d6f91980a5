-- ===== src/Module/Disk/Depth.antt =====
-- The search on disk (gpsee_modules.c) does not touch the require lock.
use gpsee.Base.{
  ℕ, zero, suc, ◌+◌, ◌≡◌, refl, ◌∙◌, Bool, List, [], ◌∷◌, ◌⊎◌, inl, inr, arith, Bool-cases,
  Option-cases,
}
use gpsee.Base.Name.{Name}
use gpsee.Module.{Handle, Splay, State, write, Fini, release}
use gpsee.Module.Engine.{Engine, Realm, M}
use gpsee.Module.Scope.{scope_for, new_handle, memoize, acquire}
use gpsee.Module.Memo.{scope_for-Frame}
use gpsee.Module.Release.{IsCalm, mark_unused-Calm, release-Released, release_done}
use gpsee.Module.Disk.{
  Search, threw, absent, found, Identity, failed, outside, old, new, load_js, load_dso, identify,
  load_file, known_module, try_file, round, Round, stop, go_on, in_dir_loop, in_dir, on_path,
  elements, to_module_path, search_user_path, search_paths, load_disk_module, canonical,
  strip_extension, file_name, base_dir,
}

pub Search-cases : (r : Search) → ((p : ℕ) × (r ≡ found p)) ⊎ (r ≡ threw) ⊎ (r ≡ absent)
Search-cases threw = inr (inl refl)
Search-cases absent = inr (inr refl)
Search-cases (found p) = inl (p, refl)

pub Round-cases : (r : Round) → ((x : Search) × (r ≡ stop x)) ⊎ ((n : ℕ) × (r ≡ go_on n))
Round-cases (stop x) = inl (x, refl)
Round-cases (go_on n) = inr (n, refl)

pub Identity-cases :
    (k : Identity) → ((q : ℕ) × ((k ≡ old q) ⊎ (k ≡ new q))) ⊎ (k ≡ failed) ⊎ (k ≡ outside)
Identity-cases failed = inr (inl refl)
Identity-cases outside = inr (inr refl)
Identity-cases (old q) = inl (q, inl refl)
Identity-cases (new q) = inl (q, inr refl)

module _ {T W : Type 0} (tree : Splay T) (fini : Fini T W) (e : Engine W) (realm : Realm)
    (calm : IsCalm fini) where
  memoize-depth :
      (p scope : ℕ) (s : State T W)
      → (memoize tree fini e realm p scope s).1.lock_depth ≡ s.lock_depth
  unfolding memoize
  memoize-depth p scope s =
      let g : Handle = record (s.handles p) { scope = scope } in
      let c = mark_unused-Calm fini calm p (write p g s) in ground (arith, c.lock_depth)

  pub acquire-depth :
      (cname : Name) (scope : ℕ) (s : State T W)
      → (acquire tree fini e realm cname scope s).1.lock_depth ≡ s.lock_depth
  unfolding acquire new_handle
  acquire-depth cname scope s =
      let s₁ = record s { world = (e.calloc s.world).1 } in
      let p = s.top + 1 in
      let made = scope_for tree fini e realm p scope (new_handle cname s₁) in
      let f = scope_for-Frame tree fini e realm p scope (new_handle cname s₁) in
      ground (arith, memoize-depth p made.0 made.1, f.lock_depth)

  pub release-depth : (p : ℕ) (s : State T W) → (release tree fini p s).lock_depth ≡ s.lock_depth
  release-depth p s = elim (Bool-cases (s.handles p).released) [
    | inl h ↦ rw (release_done tree fini calm p s h)
    | inr h ↦ (release-Released tree fini calm p s h).lock_depth
  ]

  identify-depth :
      (file ext : Name) (s : State T W)
      → (identify tree fini e realm file ext s).1.lock_depth ≡ s.lock_depth
  unfolding identify
  identify-depth file ext s = elim (Option-cases (canonical e.system file)) [
    | inl h ↦ rw (h, identify)
    | inr (real, h) ↦ ground (arith, acquire-depth (strip_extension ext real) 0 s)
  ]

  -- A loader does not touch the lock.
  abbrev Quiet : (ℕ → Name → M T W Bool) → Type 0
  Quiet loader =
      (p : ℕ) (file : Name) (s : State T W) → (loader p file s).1.lock_depth ≡ s.lock_depth

  Quiet-load_js : Quiet (load_js e)
  unfolding load_js
  Quiet-load_js p file s = ground arith

  Quiet-load_dso : Quiet (load_dso e)
  unfolding load_dso
  Quiet-load_dso p file s = ground arith

  load_file-depth :
      (loader : ℕ → Name → M T W Bool) → Quiet loader → Quiet (load_file tree fini e realm loader)
  unfolding load_file
  load_file-depth loader q p file s =
      ground (arith, q p file s, release-depth p (loader p file s).1)

  data AllQuiet : List (Name × (ℕ → Name → M T W Bool)) → Type 0 where
    nil : AllQuiet []
    cons :
        {ext : Name} {loader : ℕ → Name → M T W Bool} {rest : List (Name × (ℕ → Name → M T W Bool))}
        → Quiet loader
        → AllQuiet rest
        → AllQuiet ((ext, loader) ∷ rest)

  known_module-depth :
      (p : ℕ) (file ext : Name) (s : State T W)
      → (known_module tree fini e realm p file ext s).1.lock_depth ≡ s.lock_depth
  unfolding known_module
  known_module-depth p file ext s = ground (arith, identify-depth file ext s)

  module _ (loader : ℕ → Name → M T W Bool) (quiet : Quiet loader) (file ext : Name) where
    try_file-depth :
        (p : ℕ) (s : State T W)
        → (try_file tree fini e realm loader p file ext s).1.lock_depth ≡ s.lock_depth
    unfolding try_file
    try_file-depth p s =
        let s₁ = (known_module tree fini e realm p file ext s).1 in
        let first = known_module-depth p file ext s in
        elim (Identity-cases (known_module tree fini e realm p file ext s).0) [
          | inl (q, inl h) ↦ rw (h, try_file) first
          | inl (q, inr h) ↦
              rw (h, try_file) (ground (arith, first, load_file-depth loader quiet q file s₁))
          | inr (inl h) ↦ rw (h, try_file) first
          | inr (inr h) ↦ rw (h, try_file) first
        ]

    round-depth :
        (p : ℕ) (s : State T W)
        → (round tree fini e realm loader p file ext s).1.lock_depth ≡ s.lock_depth
    unfolding round
    round-depth p s = ground (arith, try_file-depth p s)

  in_dir_loop-depth :
      (ls : List (Name × (ℕ → Name → M T W Bool))) (name dir : Name) (p : ℕ) (s : State T W)
      → AllQuiet ls
      → (in_dir_loop tree fini e realm ls name dir p s).1.lock_depth ≡ s.lock_depth
  unfolding in_dir_loop
  in_dir_loop-depth [] name dir p s q = refl
  in_dir_loop-depth ((ext, loader) ∷ rest) name dir p s (cons quiet q) =
      let file = file_name dir name ext in
      let s₁ = (round tree fini e realm loader p file ext s).1 in
      let first = round-depth loader quiet file ext p s in
      elim (Round-cases (round tree fini e realm loader p file ext s).0) [
        | inl (x, h) ↦ rw (h, in_dir_loop) first
        | inr (n, h) ↦ rw (h, in_dir_loop) (in_dir_loop-depth rest name dir n s₁ q ∙ first)
      ]

  in_dir-depth :
      (name dir : Name) (s : State T W)
      → (in_dir tree fini e realm name dir s).1.lock_depth ≡ s.lock_depth
  unfolding in_dir
  in_dir-depth name dir s =
      in_dir_loop-depth _ name dir 0 s (cons Quiet-load_dso (cons Quiet-load_js nil))

  on_path-depth :
      (name : Name) (dirs : List Name) (s : State T W)
      → (on_path tree fini e realm name dirs s).1.lock_depth ≡ s.lock_depth
  unfolding on_path
  on_path-depth name [] s = refl
  on_path-depth name (dir ∷ dirs) s =
      let first = in_dir-depth name dir s in
      let s₁ = (in_dir tree fini e realm name dir s).1 in
      elim (Search-cases (in_dir tree fini e realm name dir s).0) [
        | inl (p, h) ↦ rw (h, on_path) first
        | inr (inl h) ↦ rw (h, on_path) first
        | inr (inr h) ↦ rw (h, on_path) (on_path-depth name dirs s₁ ∙ first)
      ]

  elements-depth :
      (n idx array : ℕ) (s : State T W) → (elements e n idx array s).1.lock_depth ≡ s.lock_depth
  unfolding elements
  elements-depth zero idx array s = refl
  elements-depth (suc n) idx array s =
      let s₁ = record s { world = (e.element array idx s.world).1 } in
      ground (arith, elements-depth n (idx + 1) array s₁)

  to_module_path-depth :
      (array : ℕ) (s : State T W) → (to_module_path e array s).1.lock_depth ≡ s.lock_depth
  unfolding to_module_path
  to_module_path-depth array s =
      let (n, w) = e.array_length array s.world in
      elim (Option-cases (e.array_length array s.world).0) [
        | inl h ↦ ground arith
        | inr (len, h) ↦ ground (arith, elements-depth len 0 array (record s { world = w }))
      ]

  search_user_path-depth :
      (name : Name) (s : State T W)
      → (search_user_path tree fini e realm name s).1.lock_depth ≡ s.lock_depth
  unfolding search_user_path
  search_user_path-depth name s =
      let first = to_module_path-depth s.user_path s in
      let s₁ = (to_module_path e s.user_path s).1 in
      elim (Option-cases (to_module_path e s.user_path s).0) [
        | inl h ↦ ground (arith, first)
        | inr (ds, h) ↦ ground (arith, first, on_path-depth name ds s₁)
      ]

  search_paths-depth :
      (name : Name) (s : State T W)
      → (search_paths tree fini e realm name s).1.lock_depth ≡ s.lock_depth
  unfolding search_paths
  search_paths-depth name s =
      let first = on_path-depth name realm.path s in
      let s₁ = (on_path tree fini e realm name realm.path s).1 in
      elim (Search-cases (on_path tree fini e realm name realm.path s).0) [
        | inl (p, h) ↦ rw (h, search_paths) first
        | inr (inl h) ↦ rw (h, search_paths) first
        | inr (inr h) ↦ rw (h, search_paths) (search_user_path-depth name s₁ ∙ first)
      ]

  pub load_disk_module-depth :
      (parent : ℕ) (name : Name) (s : State T W)
      → (load_disk_module tree fini e realm parent name s).1.lock_depth ≡ s.lock_depth
  unfolding load_disk_module
  load_disk_module-depth parent name s =
      let dir = base_dir realm.program_dir (s.handles parent).cname in
      let first = in_dir-depth name [] s in
      let s₁ = (in_dir tree fini e realm name [] s).1 in
      elim (Search-cases (in_dir tree fini e realm name [] s).0) [
        | inl (p, h) ↦ ground (
          arith,
          first,
          in_dir-depth name dir s,
          search_paths-depth name s₁,
          search_paths-depth name s,
        )
        | inr (inl h) ↦ ground (arith, first, in_dir-depth name dir s, search_paths-depth name s)
        | inr (inr h) ↦ ground (arith, first, in_dir-depth name dir s, search_paths-depth name s)
      ]
