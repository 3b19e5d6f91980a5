-- ===== src/Tests/Ending.antt =====
-- The shutdown and the clean-up of the module system.
use gpsee.Base.{inl, inr, ℕ, ◌+◌, ◌≡◌, refl, [], ◌∷◌, some, arith}
use gpsee.Base.Name.{Name, same_name}
use gpsee.Module.{Handle, blank, Fini}
use gpsee.Util.Path.{nil, Lacks}
use gpsee.Module.Shutdown.{shutdown_loop}
use gpsee.Module.Shutdown.Total.{IsQuiet, open_among, open_modules, shutdown_loop-Ends}
use gpsee.Module.Collect.{Freeing, mark_end, module_gc_callback}
use gpsee.Module.Collect.Marked.{module_gc_callback_lem}
use gpsee.Module.Cleanup.{module_system_cleanup}
use gpsee.Module.Cleanup.Emptied
use gpsee.Module.Cleanup.Emptied.{IsShut, push_all, module_system_cleanup-IsShut}
use gpsee.Tests.Memo.{find, nodes, Table, table}
use gpsee.Tests.Engine.{nothing, State₀, math, math_handle, with_math, math-IsMemo}

-- A fini function that refuses unless it is forced.
abbrev stubborn : Fini Table ℕ
stubborn f x force s = (force, s)

stubborn-IsQuiet : IsQuiet stubborn
stubborn-IsQuiet f x force s = (refl, refl)

abbrev native : State₀
native = with_math (record math_handle { fini = 4 })

one_open : open_modules table native ≡ 1
unfolding open_among nodes
one_open = refl

shutdown_loop-Ends_example :
    (u : State₀) × (shutdown_loop table stubborn (λ s. s) (open_modules table native + 2) 0 native
      ≡ some u)
    × (open_modules table u ≡ 0)
shutdown_loop-Ends_example =
    shutdown_loop-Ends table stubborn stubborn-IsQuiet (λ s. s) (λ s. omega arith) native

-- `math` behind the shutdown.
abbrev idle : Handle
idle = record blank { cname = math }

idle-IsShut : IsShut (with_math idle) (1 ∷ [])
idle-IsShut = Emptied.cons refl refl refl nil Emptied.nil

one_node : table.nodes (with_math idle).memo ≡ 1 ∷ []
unfolding nodes
one_node = refl

module_system_cleanup-IsShut_example :
    (u : State₀) × (module_system_cleanup table nothing (with_math idle) ≡ some u)
    × ((k : Name) → table.find k u.memo ≡ 0)
    × (u.unreachable ≡ push_all (table.nodes (with_math idle).memo) [])
module_system_cleanup-IsShut_example =
    module_system_cleanup-IsShut table nothing (with_math idle) (math-IsMemo idle refl refl)
      (rw one_node idle-IsShut)

-- `math` before it is loaded, with a scope.
abbrev pending : Handle
pending = record blank { cname = math; exports = 30; scope = 40 }

abbrev freeing : Freeing ℕ
freeing = record { dlclose = λ d w. w; free_handle = λ p w. w }

found_math : table.find math (with_math pending).memo ≡ 1
unfolding find same_name
found_math = refl

module_gc_callback_lem_example :
    ¬ Lacks 40 (module_gc_callback table freeing mark_end (with_math pending)).0
module_gc_callback_lem_example =
    module_gc_callback_lem table freeing math 40 (with_math pending) (omega (arith, found_math))
      (rw found_math) (omega arith) (inr (inl (rw found_math)))
