-- ===== src/Module/Disk/Absolute.antt =====
-- Where `loadDiskModule` (gpsee_modules.c) looks for a name: directories without a file of that name,
-- and absolute names.
use gpsee.Base.{ℕ, ◌≡◌, refl, ◌⊎◌, inl, inr, false, List, [], ◌∷◌, some, arith, get_or}
use gpsee.Base.Name.{Name}
use gpsee.Module.{Splay, State, Fini}
use gpsee.Module.Engine.{Engine, Realm}
use gpsee.Module.Disk.{
  threw, absent, found, codes, is_relative_path, file_name, round, in_dir_loop, in_dir, on_path,
  to_module_path, search_user_path, search_paths, load_disk_module,
}

module _ {W : Type 0} (e : Engine W) (w : W) (name : Name) where
  -- None of the directories has a file of the name, whatever its extension.
  pub data Missing : List Name → Type 0 where
    nil : Missing []
    cons :
        {dir : Name} {dirs : List Name}
        → ((ext : Name) → e.exists (file_name dir name ext) w ≡ false)
        → Missing dirs
        → Missing (dir ∷ dirs)

module _ {T W : Type 0} (tree : Splay T) (fini : Fini T W) (e : Engine W) (realm : Realm)
    (name : Name) where
  in_dir_missing :
      (dir : Name) (s : State T W)
      → ((ext : Name) → e.exists (file_name dir name ext) s.world ≡ false)
      → in_dir tree fini e realm name dir s ≡ (absent, s)
  unfolding in_dir in_dir_loop round
  in_dir_missing dir s no_file = ground (arith, no_file realm.dso_extension, no_file (codes "js"))

  pub on_path-Missing :
      (dirs : List Name) (s : State T W)
      → Missing e s.world name dirs
      → on_path tree fini e realm name dirs s ≡ (absent, s)
  unfolding on_path
  on_path-Missing [] s nil = refl
  on_path-Missing (dir ∷ dirs) s (cons no_file more) =
      ground (arith, in_dir_missing dir s no_file, on_path-Missing dirs s more)

  search_paths-Missing :
      (s : State T W)
      → Missing e s.world name realm.path
      → (s.user_path ≡ 0) ⊎ (to_module_path e s.user_path s ≡ (some [], s))
      → search_paths tree fini e realm name s ≡ (threw, s)
  unfolding search_paths search_user_path on_path
  search_paths-Missing s missing (inl h) = ground (arith, on_path-Missing realm.path s missing)
  search_paths-Missing s missing (inr h) = ground (arith, h, on_path-Missing realm.path s missing)

  -- An absolute name whose module is found by it is turned down with an exception, unless a directory
  -- of the module path or of `require.paths` has a file of that name too: what the search for the
  -- absolute name found is forgotten. Here `require.paths` is not there or empty.
  pub absolute_turned_down :
      (parent p : ℕ) (s s₁ : State T W)
      → get_or name 0 0 ≡ b'/'
      → in_dir tree fini e realm name [] s ≡ (found p, s₁)
      → Missing e s₁.world name realm.path
      → (s₁.user_path ≡ 0) ⊎ (to_module_path e s₁.user_path s₁ ≡ (some [], s₁))
      → load_disk_module tree fini e realm parent name s ≡ (threw, s₁)
  unfolding load_disk_module is_relative_path
  absolute_turned_down parent p s s₁ slash here missing user =
      ground (arith, here, search_paths-Missing s₁ missing user)
