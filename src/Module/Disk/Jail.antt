-- ===== src/Module/Disk/Jail.antt =====
-- The jail of `loadDiskModule_inDir` (gpsee_modules.c), and the names that it gives to modules.
use gpsee.Base.{
  ℕ, ◌≡◌, ◌≢◌, refl, ap, ◌⊎◌, inl, inr, Bool, true, false, ◌&&◌, List, [], ◌∷◌, ◌++◌, some, arith,
  ltb, Bool-cases, Option-cases, if◌then◌else◌, length, length-append,
}
use gpsee.Base.Name.{Name, same_name, same_name_refl, same_name_eq}
use gpsee.Util.{path_max}
use gpsee.Util.Path.{Lacks, cons}
use gpsee.Module.{Splay, State, Fini}
use gpsee.Module.Engine.{Engine, Realm, M}
use gpsee.Module.Disk.{
  threw, absent, found, failed, outside, new, stop, go_on, codes, split_at, strip_extension,
  canonical, check_jail, file_name, load_js, load_dso, identify, load_file, known_module, try_file,
  round, in_dir_loop, in_dir,
}

split_at-append : (c : ℕ) (s t : Name) → Lacks c s → split_at c (s ++ c ∷ t) ≡ some (s, t)
unfolding split_at
split_at-append c [] t l = ground arith
split_at-append c (x ∷ s) t (cons ne l) = ground (arith, split_at-append c s t l)

longer : (b ext : Name) (c : ℕ) → same_name (b ++ c ∷ ext) ext ≡ false
longer b ext c = elim (Bool-cases (same_name (b ++ c ∷ ext) ext)) [
  | inr h ↦ h
  | inl h ↦ absurd (
      omega (
        arith,
        ap (length {A = ℕ}) (same_name_eq (b ++ c ∷ ext) ext h),
        length-append {A = ℕ} b (c ∷ ext),
      ))
]

-- A module's name loses its extension if no other dot stands in its real path, and keeps it if one
-- does, in the name of a directory for instance.
pub strip_extension_dots :
    (front back ext : Name)
    → Lacks b'.' front
    → (strip_extension ext (front ++ b'.' ∷ ext) ≡ front)
      × (strip_extension ext (front ++ b'.' ∷ (back ++ b'.' ∷ ext))
          ≡ front ++ b'.' ∷ (back ++ b'.' ∷ ext))
unfolding strip_extension
strip_extension_dots front back ext l = (
  rw (split_at-append b'.' front ext l, strip_extension) (ground (arith, same_name_refl ext)),
  rw (split_at-append b'.' front (back ++ b'.' ∷ ext) l, strip_extension)
      (ground (arith, longer back ext b'.')),
)

module _ {T W : Type 0} (tree : Splay T) (fini : Fini T W) (e : Engine W) (realm : Realm) where
  module _ (name dir : Name) (s : State T W)
      (out : (ext real : Name)
        → canonical e.system (file_name dir name ext) ≡ some real
        → check_jail real realm.jail ≡ false) where
    identify_outside :
        (ext : Name)
        → (identify tree fini e realm (file_name dir name ext) ext s ≡ (failed, s))
          ⊎ (identify tree fini e realm (file_name dir name ext) ext s ≡ (outside, s))
    unfolding identify
    identify_outside ext = elim (Option-cases (canonical e.system (file_name dir name ext))) [
      | inl h ↦ inl (rw (h, identify))
      | inr (real, h) ↦ inr (rw (h, identify, out ext real h))
    ]

    round_outside :
        (loader : ℕ → Name → M T W Bool) (ext : Name)
        → let r = round tree fini e realm loader 0 (file_name dir name ext) ext s in
          (r ≡ (go_on 0, s)) ⊎ (r ≡ (stop threw, s)) ⊎ (r ≡ (stop absent, s))
    unfolding round try_file known_module
    round_outside loader ext = elim (identify_outside ext) [
      | inl h ↦ ground (arith, h)
      | inr h ↦ ground (arith, h)
    ]

    loop_outside :
        (ls : List (Name × (ℕ → Name → M T W Bool)))
        → let r = in_dir_loop tree fini e realm ls name dir 0 s in
          (r ≡ (absent, s)) ⊎ (r ≡ (threw, s))
    unfolding in_dir_loop
    loop_outside [] = inl refl
    loop_outside ((ext, loader) ∷ rest) =
        let later = loop_outside rest in
        elim (round_outside loader ext) [
          | inl h ↦ ground (arith, h, later)
          | inr (inl h) ↦ inr (ground (arith, h))
          | inr (inr h) ↦ inl (ground (arith, h))
        ]

    -- Where no file of the name in the directory, whatever its extension, has a real path inside of
    -- the jail, the search in the directory finds no module and changes nothing: nothing is loaded.
    pub in_dir_outside :
        (in_dir tree fini e realm name dir s ≡ (absent, s))
        ⊎ (in_dir tree fini e realm name dir s ≡ (threw, s))
    unfolding in_dir
    in_dir_outside = loop_outside _

  module _ (name dir : Name) (p : ℕ) (s s₁ s₂ : State T W) where
    abbrev pub first : Name
    first = file_name dir name realm.dso_extension

    abbrev pub second : Name
    second = file_name dir name (codes "js")

    -- A script is loaded into a module that a shared object of the same name gave, wherever its real
    -- path leads: the result depends on the loading of the script alone.
    pub in_dir_unchecked :
        (ltb (length first) path_max && e.exists first s.world) ≡ true
        → identify tree fini e realm first realm.dso_extension s ≡ (new p, s₁)
        → p ≢ 0
        → load_file tree fini e realm (load_dso e) p first s₁ ≡ (true, s₂)
        → (ltb (length second) path_max && e.exists second s₂.world) ≡ true
        → in_dir tree fini e realm name dir s ≡ (
          if (load_file tree fini e realm (load_js e) p second s₂).0 then found p else threw,
          (load_file tree fini e realm (load_js e) p second s₂).1,
        )
    unfolding in_dir in_dir_loop round try_file known_module
    in_dir_unchecked there known ne loaded there₂ = ground (arith, there, known, loaded, there₂)
