-- ===== src/Tests/Engine.antt =====
-- A small engine, whose state is the next address, and a memo with one module.
use gpsee.Base.{
  ℕ, ◌+◌, ◌≡◌, ◌∙◌, refl, inl, inr, true, false, [], ◌∷◌, none, some, arith, ◌==◌, if◌then◌else◌,
  sym, Bool-cases,
}
use gpsee.Base.Name.{Name, same_name, same_name_eq}
use gpsee.Module.{Handle, blank, State, Fini}
use gpsee.Module.Engine.{Engine, Realm}
use gpsee.Module.Memo.{IsMemo}
use gpsee.Module.Release.{Calm-refl, IsCalm}
use gpsee.Module.Disk.{codes}
use gpsee.Module.Load.{Program}
use gpsee.Module.Load.Depth.{IsBalanced}
use gpsee.Tests.Memo.{find, Table, table}

abbrev pub fresh : ℕ → ℕ × ℕ
fresh w = (w, w + 1)

-- The one file.
abbrev pub script_file : Name
script_file = codes "/m/./a.js"

abbrev pub engine : Engine ℕ
engine = record {
  calloc = λ w. (true, w);
  malloc_info = λ w. (true, w);
  enter_roots = λ w. (true, w);
  new_global = fresh;
  set_parent = λ x w. (true, w);
  get_slot = λ k w. (some 1, w);
  set_slot = λ x k v w. (true, w);
  slot_limit = 2;
  define = λ x k v a w. (true, w);
  define_require = λ x a w. (w, w + 1);
  bind_require = λ r p w. (true, w);
  add_root = λ w. w;
  new_array = fresh;
  new_exports = λ x w. (w, w + 1);
  new_module_object = λ x w. (w, w + 1);
  new_string = λ name w. (w, w + 1);
  compile = λ file x w. (some (w, w + 1), w + 2);
  dlopen = λ file w. (w, w + 1);
  dlsym = λ d name w. (w, w + 1);
  exists = λ file w. same_name file script_file;
  system = record { grants = λ n. true; realpath = λ path. some (codes "/m/a.js") };
  is_array = λ a w. true;
  array_length = λ a w. (some 0, w);
  element = λ a i w. (none, w);
}

abbrev pub realm : Realm
realm = record {
  global = 9;
  program_module = 0;
  jail = some (codes "/m");
  path = [];
  program_dir = some (codes "/m");
  dso_extension = codes "so";
}

abbrev pub nothing : Fini Table ℕ
nothing f x force s = (true, s)

pub nothing-IsCalm : IsCalm nothing
nothing-IsCalm f x force s = Calm-refl s

abbrev pub program : Program Table ℕ
program = record { fini = nothing; init = λ f x s. s; script = λ x c s. (true, s) }

pub program-IsBalanced : IsBalanced program
program-IsBalanced = record { calm = nothing-IsCalm; init = λ f x s. refl; script = λ x c s. refl }

abbrev pub State₀ : Type 0
State₀ = State Table ℕ

abbrev pub empty : State₀
empty = record {
  handles = λ p. blank;
  top = 0;
  memo = [];
  unreachable = [];
  scope_info = λ x. 0;
  user_path = 0;
  require_main = 0;
  lock_depth = 0;
  world = 100;
}

abbrev pub math : Name
math = codes "math"

-- One module is there, at address 1, and has been loaded.
abbrev pub math_handle : Handle
math_handle = record blank { cname = math; exports = 30; scope = 40; loaded = true }

abbrev pub with_math : Handle → State₀
with_math h = record empty {
  handles = λ p. if p == 1 then h else blank;
  top = 1;
  memo = (math, 1) ∷ [];
}

abbrev pub one_module : State₀
one_module = with_math math_handle

pub math-IsMemo : (h : Handle) → h.cname ≡ math → h.released ≡ false → IsMemo table (with_math h)
unfolding find
math-IsMemo h e r k = elim (Bool-cases (same_name k math)) [
  | inl t ↦ record {
    named = λ ne. rw t (e ∙ sym (same_name_eq k math t));
    live = λ ne. rw t r;
    allocated = rw t (omega arith);
  }
  | inr f ↦ record {
    named = λ ne. absurd (ne (rw f));
    live = λ ne. absurd (ne (rw f));
    allocated = rw f (omega arith);
  }
]

pub one-IsMemo : IsMemo table one_module
one-IsMemo = math-IsMemo math_handle refl refl
