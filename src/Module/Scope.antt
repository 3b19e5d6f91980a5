-- ===== src/Module/Scope.antt =====
-- gpsee_modules.c: the scope of a module, and how a handle is acquired.
pub mod Frame
use gpsee.Base.{ℕ, zero, suc, ◌+◌, Bool, true, false, not, Option, none, some, ◌==◌, if◌then◌else◌}
use gpsee.Base.Name.{Name}
use gpsee.Module.{Handle, blank, Splay, State, update, write, Fini, mark_unused}
use gpsee.Module.Engine.{
  Engine, Realm, Property, undefined, paths, exports, main, module_, id, Attributes, volatile,
  permanent, permanent_read_only, M, ◌>>=◌, ◌>>◌, pure, ask, modify, non_null,
}

abbrev pub attributes : Bool → Attributes → Attributes
attributes is_volatile a = if is_volatile then volatile else a

module _ {T W : Type 0} (e : Engine W) where
  -- The assignment to the private slot.
  unfoldable pub set_module_scope_info : ℕ → ℕ → M T W Bool
  set_module_scope_info scope p =
      ask e.malloc_info >> modify (λ s. record s { scope_info = update s.scope_info scope p })

  -- The loop over the slots of the cached prototypes, with so many to go.
  unfoldable pub copy_slots : ℕ → ℕ → ℕ → M T W Bool
  copy_slots zero key scope s = (true, s)
  copy_slots (suc n) key scope s =
      let (v, w) = e.get_slot key s.world in
      elim v [
        | none ↦ (false, record s { world = w })
        | some v' ↦
            let (done, w') = e.set_slot scope key v' w in
            elim done [
              | true ↦ copy_slots n (key + 1) scope (record s { world = w' })
              | false ↦ (false, record s { world = w' })
            ]
      ]

  unfoldable pub first_user_path : M T W Bool
  first_user_path s = elim (s.user_path == 0) [
    | false ↦ (true, s)
    | true ↦
        let (array, w) = e.new_array (e.add_root s.world) in
        (not (array == 0), record s { user_path = array; world = w })
  ]

module _ {T W : Type 0} (e : Engine W) (realm : Realm) where
  unfoldable pub define_undefined : ℕ → Bool → M T W Bool
  define_undefined scope is_volatile s = elim (scope == realm.global) [
    | true ↦ (true, s)
    | false ↦
        (copy_slots e e.slot_limit 0 scope
            >> ask (e.define scope undefined 0 (attributes is_volatile permanent)))
          s
  ]

  -- From the definition of `exports` on.
  unfoldable pub define_module : ℕ → ℕ → Attributes → ℕ → M T W Bool
  define_module p scope a require = do
    exported ← ask (e.new_exports scope)
    modify (λ s. write p (record (s.handles p) { exports = exported }) s)
    ask (e.define scope exports exported a)
    m ← ask (e.new_module_object scope)
    non_null m
    modify
        (λ s. record s { require_main = if p == realm.program_module then m else s.require_main })
    (λ s. ask (e.define require main s.require_main a) s)
    ask (e.define scope module_ m a)
    label ← (λ s. ask (e.new_string (s.handles p).cname) s)
    non_null label
    ask (e.define m id label a)

  unfoldable pub initialize_module_scope : ℕ → ℕ → Bool → M T W Bool
  initialize_module_scope p scope is_volatile =
      let a = attributes is_volatile permanent_read_only in
      set_module_scope_info e scope p >> define_undefined scope is_volatile >> (do
        require ← ask (e.define_require scope a)
        non_null require
        first_user_path e
        (λ s. ask (e.define require paths s.user_path a) s)
        ask (e.bind_require require p)
        define_module p scope a require)

  -- Behind JS_EnterLocalRootScope: the scope, or NULL.
  unfoldable pub rooted_scope : ℕ → M T W ℕ
  rooted_scope p = do
    scope ← ask e.new_global
    done ← (non_null scope >> ask (e.set_parent scope) >> initialize_module_scope p scope false)
    pure (if done then scope else 0)

  unfoldable pub new_module_scope : ℕ → M T W ℕ
  new_module_scope p = do rooted ← ask e.enter_roots; (if rooted then rooted_scope p else pure 0)

-- A new handle with its name.
unfoldable pub new_handle : {T W : Type 0} → Name → State T W → State T W
new_handle cname s = record (write (s.top + 1) (record blank { cname = cname }) s) {
  top = s.top + 1;
}

module _ {T W : Type 0} (tree : Splay T) (fini : Fini T W) (e : Engine W) (realm : Realm) where
  -- The scope of a new handle: the given one, if it is not NULL, or a new one.
  unfoldable pub scope_for : ℕ → ℕ → M T W ℕ
  scope_for p scope s = elim (scope == 0) [
    | true ↦ new_module_scope e realm p s
    | false ↦ (scope, s)
  ]

  -- The handle with its scope enters the memo, unless the scope is NULL.
  unfoldable pub memoize : ℕ → ℕ → M T W ℕ
  memoize p scope s =
      let s₁ = write p (record (s.handles p) { scope = scope }) s in
      elim (scope == 0) [
        | true ↦ (0, mark_unused fini p s₁)
        | false ↦ (p, record s₁ { memo = tree.insert (s₁.handles p).cname p s₁.memo })
      ]

  unfoldable pub acquire : Name → ℕ → M T W ℕ
  acquire cname scope s = elim (tree.find cname s.memo == 0) [
    | false ↦ (tree.find cname s.memo, s)
    | true ↦
        let (granted, w) = e.calloc s.world in
        let s₁ = record s { world = w } in
        elim granted [
          | false ↦ (0, s₁)
          | true ↦
              let (made, s₂) = scope_for (s.top + 1) scope (new_handle cname s₁) in
              memoize (s.top + 1) made s₂
        ]
  ]
