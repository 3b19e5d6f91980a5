-- ===== src/Module/Engine.antt =====
-- What gpsee_modules.c asks of SpiderMonkey, of the dynamic linker and of the file system, and the
-- sequencing of its calls. An object, a script or a function is its address, and NULL is 0.
use gpsee.Base.{ℕ, Bool, true, false, not, ◌==◌, List, Option}
use gpsee.Base.Name.{Name}
use gpsee.Util.{System}
use gpsee.Module.{State}

-- The properties that a module scope gets, and their attributes: those of a volatile scope are
-- neither permanent nor read-only, and `undefined` is never read-only.
pub data Property : Type 0 where
  undefined paths exports main module_ id : Property

pub data Attributes : Type 0 where
  volatile permanent permanent_read_only : Attributes

pub record Engine (W : Type 0) : Type 0 where
  pub calloc : W → Bool × W
  pub malloc_info : W → Bool × W
  pub enter_roots : W → Bool × W
  pub new_global : W → ℕ × W
  pub set_parent : ℕ → W → Bool × W
  pub get_slot : ℕ → W → Option ℕ × W
  pub set_slot : ℕ → ℕ → ℕ → W → Bool × W
  pub slot_limit : ℕ
  pub define : ℕ → Property → ℕ → Attributes → W → Bool × W
  pub define_require : ℕ → Attributes → W → ℕ × W
  pub bind_require : ℕ → ℕ → W → Bool × W
  pub add_root : W → W
  pub new_array : W → ℕ × W
  pub new_exports : ℕ → W → ℕ × W
  pub new_module_object : ℕ → W → ℕ × W
  pub new_string : Name → W → ℕ × W
  -- `gpsee_compileScript` of a file: whether it compiles, the script, its object
  pub compile : Name → ℕ → W → Option (ℕ × ℕ) × W
  pub dlopen : Name → W → ℕ × W
  pub dlsym : ℕ → Name → W → ℕ × W
  -- `access(name, F_OK) == 0`
  pub exists : Name → W → Bool
  pub system : System
  -- JS_IsArrayObject, JS_GetArrayLength, JS_GetElement with the conversion to a C string
  pub is_array : ℕ → W → Bool
  pub array_length : ℕ → W → Option ℕ × W
  pub element : ℕ → ℕ → W → Option (Option Name) × W

-- The realm's fields that do not change, and the extension of shared objects.
pub record Realm : Type 0 where
  pub global : ℕ
  pub program_module : ℕ
  pub jail : Option Name
  pub path : List Name
  pub program_dir : Option Name
  pub dso_extension : Name

-- A function that may change the state.
abbrev pub M : Type 0 → Type 0 → Type 0 → Type 0
M T W A = State T W → A × State T W

infixl 5 ◌>>=◌
unfoldable pub ◌>>=◌ : {T W A B : Type 0} → M T W A → (A → M T W B) → M T W B
◌>>=◌ m f s = let (a, s') = m s in f a s'

unfoldable pub pure : {T W A : Type 0} → A → M T W A
pure a s = (a, s)

-- The rest is left out after a failure.
infixr 5 ◌>>◌
unfoldable pub ◌>>◌ : {T W : Type 0} → M T W Bool → M T W Bool → M T W Bool
◌>>◌ m rest s = let (done, s') = m s in elim done [ true ↦ rest s' | false ↦ (false, s') ]

unfoldable pub ask : {T W A : Type 0} → (W → A × W) → M T W A
ask call s = let (a, w) = call s.world in (a, record s { world = w })

unfoldable pub modify : {T W : Type 0} → (State T W → State T W) → M T W Bool
modify f s = (true, f s)

-- A call that answers with an address fails by NULL.
unfoldable pub non_null : {T W : Type 0} → ℕ → M T W Bool
non_null p s = (not (p == 0), s)
