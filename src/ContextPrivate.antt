-- ===== src/ContextPrivate.antt =====
-- gpsee_context_private.c: the storage that each user (`id`) has in a context. The context, the
-- runtime, an id, a callback and a storage are addresses, and NULL is 0.
pub mod Lookup
pub mod Destruction
use gpsee.Base.{
  ℕ, zero, suc, ◌+◌, Bool, true, false, ◌&&◌, List, [], ◌∷◌, ◌++◌, Option, none, some, ◌==◌,
  if◌then◌else◌, get_elem?,
}

-- An element of `list`.
pub record Entry : Type 0 where
  pub cx : ℕ
  pub id : ℕ
  pub cb : ℕ
  pub storage : ℕ

-- The private pointer of the context, with the list that stands there, and all else.
pub record Private (W : Type 0) : Type 0 where
  pub hnd : Option (List Entry)
  pub world : W

pub data Operation : Type 0 where
  created destroyed : Operation

-- JS_malloc of the handle, with the context callback that is set behind it; whether realloc gives a
-- longer list; JS_malloc of a storage with the memset; JS_free; the calls of callbacks.
pub record Host (W : Type 0) : Type 0 where
  pub handle : W → Bool × W
  pub grow : W → Bool × W
  pub storage : ℕ → W → ℕ × W
  pub free : ℕ → W → W
  pub call : ℕ → Operation → Private W → Private W

unfoldable pub find_entry : ℕ → ℕ → List Entry → Option Entry
find_entry cx id [] = none
find_entry cx id (e ∷ es) = elim (e.cx == cx && e.id == id) [
  | true ↦ some e
  | false ↦ find_entry cx id es
]

module _ {W : Type 0} (host : Host W) (runtime cx : ℕ) where
  unfoldable pub notify : ℕ → Operation → Private W → Private W
  notify cb op s = elim (cb == 0) [ true ↦ s | false ↦ host.call cb op s ]

  unfoldable pub storage_of : ℕ → W → ℕ × W
  storage_of size w = elim (size == 0) [ true ↦ (0, w) | false ↦ host.storage size w ]

  -- From the comment "make a new one" on; `none` is the panic.
  unfoldable pub add_entry : ℕ → ℕ → ℕ → List Entry → W → Option (ℕ × Private W)
  add_entry id size cb es w =
      let (granted, w₁) = host.grow w in
      elim granted [
        | false ↦ none
        | true ↦
            let (p, w₂) = storage_of size w₁ in
            let owner = if id == 0 then runtime else cx in
            let e : Entry = record { cx = owner; id = id; cb = cb; storage = p } in
            let s = notify cb created (record { hnd = some (es ++ e ∷ []); world = w₂ }) in
            some (if id == 0 then cb else p, s)
      ]

  unfoldable pub find_or_add : ℕ → ℕ → ℕ → List Entry → W → Option (ℕ × Private W)
  find_or_add id size cb es w = elim (find_entry cx id es) [
    | some e ↦ some (e.storage, record { hnd = some es; world = w })
    | none ↦ add_entry id size cb es w
  ]

  unfoldable pub get_context_private : ℕ → ℕ → ℕ → Private W → Option (ℕ × Private W)
  get_context_private id size cb s = elim s.hnd [
    | some es ↦ find_or_add id size cb es s.world
    | none ↦
        let (granted, w) = host.handle s.world in
        elim granted [
          | false ↦ some (0, record { hnd = none; world = w })
          | true ↦ find_or_add id size cb [] w
        ]
  ]

  unfoldable pub set_context_callback : ℕ → Private W → Option (ℕ × Private W)
  set_context_callback cb s = get_context_private 0 0 cb s

  unfoldable pub free_all : List Entry → W → W
  free_all [] w = w
  free_all (e ∷ es) w = free_all es (host.free e.storage w)

  unfoldable pub destroy_context_private : Private W → Private W
  destroy_context_private s = elim s.hnd [
    | none ↦ s
    | some es ↦ record { hnd = none; world = free_all es s.world }
  ]

  -- The element `i` of the list as it is at that time.
  unfoldable pub entry_at : ℕ → Private W → Option Entry
  entry_at i s = elim s.hnd [ none ↦ none | some es ↦ get_elem? es i ]

  -- The loop over the callbacks, on fuel: they may make the list longer.
  unfoldable pub notify_all : ℕ → ℕ → Private W → Option (Private W)
  notify_all zero i s = none
  notify_all (suc fuel) i s = elim (entry_at i s) [
    | none ↦ some s
    | some e ↦ notify_all fuel (i + 1) (notify e.cb destroyed s)
  ]

  -- `gpsee_contextCallback` with JSCONTEXT_DESTROY.
  unfoldable pub context_destroyed : ℕ → Private W → Option (Private W)
  context_destroyed fuel s = elim (notify_all fuel 0 s) [
    | none ↦ none
    | some s₁ ↦ some (destroy_context_private s₁)
  ]
