-- ===== src/Tests/Modules.antt =====
-- The module system over a small engine.
use gpsee.Base.{ℕ, ◌≡◌, ◌≢◌, refl, ◌⊎◌, inl, false, List, [], ◌∷◌, some, arith}
use gpsee.Base.Name.{Name, same_name}
use gpsee.Module.{blank, release}
use gpsee.Module.Engine.{Engine, Realm}
use gpsee.Module.Scope.{
  acquire, scope_for, new_module_scope, rooted_scope, initialize_module_scope,
  set_module_scope_info, define_undefined, copy_slots, first_user_path, define_module, memoize,
  new_handle,
}
use gpsee.Module.Engine.{◌>>=◌, ◌>>◌, pure, ask, modify, non_null}
use gpsee.Module.Memo.{IsMemo, Acquired, acquire-Acquired}
use gpsee.Module.Release.{release_lem}
use gpsee.Module.Disk.{
  codes, threw, absent, found, in_dir, load_disk_module, canonical, file_name, is_relative_path,
  base_dir, check_jail, starts_with, in_dir_loop, round, try_file, known_module, identify,
  strip_extension, split_at,
}
use gpsee.Module.Disk.Canonical.{canonical_lem}
use gpsee.Module.Disk.Absolute
use gpsee.Module.Disk.Absolute.{absolute_turned_down}
use gpsee.Module.Disk.Jail.{in_dir_outside}
use gpsee.Module.Load.{
  exception, Internal, internal_of, load_named, load_internal_module, finish_load,
  initialize_module, run_init, run_script, load_module, exports, crashed,
}
use gpsee.Module.Load.Failed.{IsTidy, finish_load_forgets}
use gpsee.Module.Load.Depth.{load_module-depth}
use gpsee.Module.Load.Again.{require_loaded_relative}
use gpsee.Tests.Memo.{find, insert, table}
use gpsee.Tests.Engine.{
  with_math, math-IsMemo, script_file, engine, realm, nothing, nothing-IsCalm, program,
  program-IsBalanced, State₀, empty, math, one_module, one-IsMemo,
}

acquire-Acquired_example :
    let r = acquire table nothing engine realm (codes "fs") 0 one_module in
    Acquired table (codes "fs") one_module r.0 r.1
acquire-Acquired_example =
    acquire-Acquired table nothing engine realm (codes "fs") 0 one_module one-IsMemo

acquired : (acquire table nothing engine realm (codes "fs") 0 one_module).0 ≢ 0
unfolding acquire scope_for new_module_scope rooted_scope initialize_module_scope
    set_module_scope_info define_undefined copy_slots first_user_path define_module memoize
    new_handle ◌>>=◌ ◌>>◌ pure ask modify non_null find same_name
acquired = omega arith

release_lem_example :
    (table.find math (release table nothing 1 one_module).memo ≡ 0)
    × ((release table nothing 1 one_module).unreachable ≡ 1 ∷ [])
    × IsMemo table (release table nothing 1 one_module)
unfolding find same_name
release_lem_example = release_lem table nothing nothing-IsCalm 1 one_module math refl one-IsMemo

abbrev listed : List Internal
listed = record { name = math; init = 3; fini = 4 } ∷ []

-- The script is loaded, at address 1.
abbrev loaded_script : State₀
loaded_script = record one_module { memo = (codes "/m/a", 1) ∷ [] }

resolves : canonical engine.system script_file ≡ some (codes "/m/a.js")
resolves = canonical_lem engine.system script_file (codes "/m/a.js") refl (omega arith)

require_loaded_relative_example :
    load_module table program engine realm listed 1 0 (codes "./a") loaded_script
    ≡ (exports 30, loaded_script)
unfolding find same_name internal_of is_relative_path file_name base_dir check_jail starts_with
    strip_extension split_at
require_loaded_relative_example =
    require_loaded_relative table program engine realm listed 0 (codes "./a") loaded_script 1
      (codes "/m/a.js") refl refl refl refl refl resolves refl refl (omega arith) refl

-- `math` is acquired and initialized.
runs : (load_module table program engine realm listed 1 0 math empty).0 ≢ crashed
unfolding load_module load_named load_internal_module internal_of finish_load initialize_module
    run_init run_script acquire scope_for new_module_scope rooted_scope initialize_module_scope
    set_module_scope_info define_undefined copy_slots first_user_path define_module memoize
    new_handle ◌>>=◌ ◌>>◌ pure ask modify non_null find insert same_name
runs = cc

load_module-depth_example :
    (load_module table program engine realm listed 1 0 math empty).1.lock_depth ≡ 0
load_module-depth_example =
    load_module-depth table program program-IsBalanced engine realm listed 1 0 math empty runs

abbrev jailed : Realm
jailed = record realm { jail = some (codes "/j") }

is_outside :
    (ext real : Name)
    → canonical engine.system (file_name (codes "/m/.") (codes "a") ext) ≡ some real
    → check_jail real jailed.jail ≡ false
unfolding check_jail starts_with
is_outside ext real h =
    let e =
      canonical_lem engine.system (file_name (codes "/m/.") (codes "a") ext) (codes "/m/a.js") refl
        (omega arith) in
    ground (arith, e)

in_dir_outside_example :
    (in_dir table nothing engine jailed (codes "a") (codes "/m/.") empty ≡ (absent, empty))
    ⊎ (in_dir table nothing engine jailed (codes "a") (codes "/m/.") empty ≡ (threw, empty))
in_dir_outside_example =
    in_dir_outside table nothing engine jailed (codes "a") (codes "/m/.") empty is_outside

-- The one file is the script's, by its absolute name.
abbrev absolute : Engine ℕ
absolute = record engine { exists = λ file w. same_name file (codes "//m/a.js") }

resolves_absolute : canonical absolute.system (codes "//m/a.js") ≡ some (codes "/m/a.js")
resolves_absolute =
    canonical_lem absolute.system (codes "//m/a.js") (codes "/m/a.js") refl (omega arith)

here :
    in_dir table nothing absolute realm (codes "/m/a") [] loaded_script ≡ (found 1, loaded_script)
unfolding in_dir in_dir_loop round try_file known_module identify acquire find same_name file_name
    check_jail starts_with strip_extension split_at
here = let r = resolves_absolute in ground (arith, r)

absolute_turned_down_example :
    load_disk_module table nothing absolute realm 0 (codes "/m/a") loaded_script
    ≡ (threw, loaded_script)
absolute_turned_down_example =
    absolute_turned_down table nothing absolute realm (codes "/m/a") 0 1 loaded_script loaded_script
      refl here Absolute.nil (inl refl)

-- `math` without code: no function and no script.
abbrev no_code : State₀
no_code = with_math (record blank { cname = math; exports = 30 })

program-IsTidy : IsTidy table program
program-IsTidy = record { calm = nothing-IsCalm; init = λ f x s m. m; script = λ x c s m. m }

no_code_throws : (finish_load table program 1 no_code).0 ≡ exception
unfolding finish_load
no_code_throws = refl

finish_load_forgets_example : table.find math (finish_load table program 1 no_code).1.memo ≢ 1
finish_load_forgets_example =
    finish_load_forgets table program program-IsTidy 1 no_code (omega arith)
      (math-IsMemo (record blank { cname = math; exports = 30 }) refl refl) no_code_throws math
