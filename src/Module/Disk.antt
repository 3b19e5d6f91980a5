-- ===== src/Module/Disk.antt =====
-- gpsee_modules.c: the search for a module on disk. `gpsee_throw` is a result; the monitor around
-- the read of `programModuleDir` is left out, and that directory is shorter than PATH_MAX.
pub mod Depth
pub mod Absolute
pub mod Jail
pub mod Canonical
pub use gpsee.Base.Text.{codes}
use gpsee.Base.{
  ℕ, zero, suc, ◌+◌, Bool, true, false, not, ◌&&◌, ◌||◌, List, [], ◌∷◌, ◌++◌, Option, none, some,
  ltb, ◌==◌, if◌then◌else◌, length, get_or, replicate, take,
}
use gpsee.Base.Name.{Name, same_name}
use gpsee.Util.{System, basename, dirname, path_max, resolvepath}
use gpsee.Module.{Handle, Splay, State, write, Fini, release}
use gpsee.Module.Engine.{Engine, Realm, M}
use gpsee.Module.Scope.{acquire}

-- JS_FALSE; JS_TRUE with `*module_p` NULL; JS_TRUE with a module.
pub data Search : Type 0 where
  threw absent : Search
  found : ℕ → Search

-- How a file is identified: an exception, a file outside of the jail, a module that has been loaded,
-- a module that has to be loaded.
pub data Identity : Type 0 where
  failed outside : Identity
  old new : ℕ → Identity

-- How a round of the loop over the extensions ends: with a result, or with `module`.
pub data Round : Type 0 where
  stop : Search → Round
  go_on : ℕ → Round

abbrev pub result_of : ℕ → Search
result_of p = if p == 0 then absent else found p

-- An absent module is an exception.
abbrev pub or_throw : Search → Search
or_throw absent = threw
or_throw r = r

unfoldable pub starts_with : Name → Name → Bool
starts_with [] s = true
starts_with (x ∷ xs) [] = false
starts_with (x ∷ xs) (y ∷ ys) = (x == y) && starts_with xs ys

-- Whether `checkJail` returns the path.
unfoldable pub check_jail : Name → Option Name → Bool
check_jail full none = true
check_jail full (some jail) = starts_with jail full && (get_or full (length jail) 0 == b'/')

unfoldable pub is_relative_path : Name → Bool
is_relative_path path =
    (get_or path 0 0 == b'.')
    && ((get_or path 1 0 == b'/') || ((get_or path 1 0 == b'.') && (get_or path 2 0 == b'/')))

-- `strchr`: what stands before the first such byte, and behind it.
unfoldable pub split_at : ℕ → Name → Option (Name × Name)
split_at c [] = none
split_at c (x ∷ xs) =
    if x == c
    then some ([], xs)
    else (elim (split_at c xs) [ none ↦ none | some (a, b) ↦ some (x ∷ a, b) ])

-- The text behind the first dot is cut off, if it is the extension.
unfoldable pub strip_extension : Name → Name → Name
strip_extension ext path = elim (split_at b'.' path) [
  | none ↦ path
  | some (front, back) ↦ if same_name back ext then front else path
]

unfoldable pub file_name : Name → Name → Name → Name
file_name dir name ext = dir ++ (b'/' ∷ (name ++ (b'.' ∷ ext)))

-- `gpsee_resolvepath` into a buffer of PATH_MAX bytes, and the text there.
unfoldable pub canonical : System → Name → Option Name
canonical sys path = elim (resolvepath sys path (some (replicate path_max 0)) path_max) [
  | none ↦ none
  | some (none, b) ↦ none
  | some (some n, none) ↦ none
  | some (some n, some b) ↦ some (take n b)
]

-- A NULL or empty string is left out.
pub add_dir : Option Name → List Name → List Name
add_dir none dirs = dirs
add_dir (some []) dirs = dirs
add_dir (some (c ∷ cs)) dirs = (c ∷ cs) ∷ dirs

-- glibc prints NULL so.
get_path : Option Name → Name
get_path none = codes "(null)"
get_path (some dir) = dir

get_dir : Option Name → Name
get_dir none = b'.' ∷ []
get_dir (some dir) = dir

-- The directory that a relative name is looked up in.
unfoldable pub base_dir : Option Name → Name → Name
unfolding get_path get_dir
base_dir program_dir cname =
    if get_or cname 0 0 == b'/' then get_path (dirname cname path_max) else get_dir program_dir

module _ {T W : Type 0} (e : Engine W) where
  unfoldable pub load_js : ℕ → Name → M T W Bool
  load_js p file s =
      let (compiled, w) = e.compile file (s.handles p).scope s.world in
      let s₁ = record s { world = w } in
      elim compiled [
        | none ↦ (false, s₁)
        | some (script, object) ↦
            (true, write p (record (s₁.handles p) { script = script; scrobj = object }) s₁)
      ]

  -- A symbol that is not found is NULL.
  unfoldable pub load_dso : ℕ → Name → M T W Bool
  load_dso p file s =
      let (handle, w) = e.dlopen file s.world in
      let s₁ = write p (record (s.handles p) { dso = handle }) (record s { world = w }) in
      elim (handle == 0) [
        | true ↦ (false, s₁)
        | false ↦
            let bname = basename (s.handles p).cname in
            let (init, w₁) = e.dlsym handle (bname ++ codes "_InitModule") w in
            let (fini', w₂) = e.dlsym handle (bname ++ codes "_FiniModule") w₁ in
            (
              true,
              write p (record (s₁.handles p) { init = init; fini = fini' })
                  (record s₁ { world = w₂ }),
            )
      ]

  -- The loop of `JSArray_toModulePath` with so many elements to go; `none` is JS_FALSE.
  unfoldable pub elements : ℕ → ℕ → ℕ → M T W (Option (List Name))
  elements zero idx array s = (some [], s)
  elements (suc n) idx array s =
      let (v, w) = e.element array idx s.world in
      elim v [
        | none ↦ (none, record s { world = w })
        | some dir ↦
            let (more, s₁) = elements n (idx + 1) array (record s { world = w }) in
            elim more [ none ↦ (none, s₁) | some dirs ↦ (some (add_dir dir dirs), s₁) ]
      ]

  unfoldable pub to_module_path : ℕ → M T W (Option (List Name))
  to_module_path array s = elim (e.is_array array s.world) [
    | false ↦ (some [], s)
    | true ↦
        let (n, w) = e.array_length array s.world in
        elim n [
          | none ↦ (none, record s { world = w })
          | some len ↦ elements len 0 array (record s { world = w })
        ]
  ]

module _ {T W : Type 0} (tree : Splay T) (fini : Fini T W) (e : Engine W) (realm : Realm) where
  unfoldable pub identify : Name → Name → M T W Identity
  identify file ext s = elim (canonical e.system file) [
    | none ↦ (failed, s)
    | some real ↦ elim (check_jail real realm.jail) [
      | false ↦ (outside, s)
      | true ↦
          let (p, s₁) = acquire tree fini e realm (strip_extension ext real) 0 s in
          elim (p == 0) [
            | true ↦ (failed, s₁)
            | false ↦ elim (s₁.handles p).loaded [ true ↦ (old p, s₁) | false ↦ (new p, s₁) ]
          ]
    ]
  ]

  -- A file that the loader cannot load costs the handle.
  unfoldable pub load_file : (ℕ → Name → M T W Bool) → ℕ → Name → M T W Bool
  load_file loader p file s =
      let (done, s₁) = loader p file s in
      elim done [ true ↦ (true, s₁) | false ↦ (false, release tree fini p s₁) ]

  -- `module` is `p` so far: it is identified once.
  unfoldable pub known_module : ℕ → Name → Name → M T W Identity
  known_module p file ext s = elim (p == 0) [ true ↦ identify file ext s | false ↦ (new p, s) ]

  unfoldable pub try_file : (ℕ → Name → M T W Bool) → ℕ → Name → Name → M T W Round
  try_file loader p file ext s =
      let (known, s₁) = known_module p file ext s in
      elim known [
        | failed ↦ (stop threw, s₁)
        | outside ↦ (stop absent, s₁)
        | old q ↦ (stop (found q), s₁)
        | new q ↦
            let (done, s₂) = load_file loader q file s₁ in
            elim done [ true ↦ (go_on q, s₂) | false ↦ (stop threw, s₂) ]
      ]

  -- A name that does not fit the buffer and a file that is not there are passed over.
  unfoldable pub round : (ℕ → Name → M T W Bool) → ℕ → Name → Name → M T W Round
  round loader p file ext s = elim (ltb (length file) path_max && e.exists file s.world) [
    | false ↦ (go_on p, s)
    | true ↦ try_file loader p file ext s
  ]

  -- The loop of `loadDiskModule_inDir` over the extensions and their loaders.
  unfoldable pub in_dir_loop :
      List (Name × (ℕ → Name → M T W Bool)) → Name → Name → ℕ → M T W Search
  in_dir_loop [] name dir p s = (result_of p, s)
  in_dir_loop ((ext, loader) ∷ rest) name dir p s =
      let (r, s₁) = round loader p (file_name dir name ext) ext s in
      elim r [ stop x ↦ (x, s₁) | go_on q ↦ in_dir_loop rest name dir q s₁ ]

  unfoldable pub in_dir : Name → Name → M T W Search
  in_dir name dir =
      in_dir_loop ((realm.dso_extension, load_dso e) ∷ (codes "js", load_js e) ∷ []) name dir 0

  unfoldable pub on_path : Name → List Name → M T W Search
  on_path name [] s = (absent, s)
  on_path name (dir ∷ dirs) s =
      let (result, s₁) = in_dir name dir s in
      elim result [ threw ↦ (threw, s₁) | absent ↦ on_path name dirs s₁ | found p ↦ (found p, s₁) ]

  unfoldable pub search_user_path : Name → M T W Search
  search_user_path name s = elim (s.user_path == 0) [
    | true ↦ (threw, s)
    | false ↦
        let (dirs, s₁) = to_module_path e s.user_path s in
        elim dirs [
          | none ↦ (threw, s₁)
          | some ds ↦ let (r, s₂) = on_path name ds s₁ in (or_throw r, s₂)
        ]
  ]

  -- Both paths; `*module_p` is NULL at the start.
  unfoldable pub search_paths : Name → M T W Search
  search_paths name s =
      let (r, s₁) = on_path name realm.path s in
      elim r [ threw ↦ (threw, s₁) | found p ↦ (found p, s₁) | absent ↦ search_user_path name s₁ ]

  unfoldable pub load_disk_module : ℕ → Name → M T W Search
  load_disk_module parent name s = elim (is_relative_path name) [
    | true ↦
        let (r, s₁) = in_dir name (base_dir realm.program_dir (s.handles parent).cname) s in
        (or_throw r, s₁)
    | false ↦ elim (get_or name 0 0 == b'/') [
      | false ↦ search_paths name s
      | true ↦
          let (r, s₁) = in_dir name [] s in
          elim r [ threw ↦ (threw, s₁) | absent ↦ (threw, s₁) | found p ↦ search_paths name s₁ ]
    ]
  ]
