-- ===== src/Hooks/Table.antt =====
-- The table of hooks (gpsee_hookable_io.c).
use mathlib.Core.Option.{none-ne-some}
use gpsee.Base.{
  sym, ℕ, zero, suc, ◌+◌, min, ◌≤◌, ◌<◌, ◌≡◌, ◌≢◌, refl, ap, ◌∙◌, inl, inr, Bool, true, false, List,
  [], ◌∷◌, Option, none, some, arith, ltb, leb, Bool-cases, length, get_elem?, set, length-set,
}
use gpsee.Hooks.{Hook, UserIo, hook_at, void_hooks, make_hooks, hook_file_descriptor}

get_elem?-set :
    (xs : List Hook) (i : ℕ) (v : Hook) → i < length xs → get_elem? (set xs i v) i ≡ some v
get_elem?-set [] i v lt = absurd (omega (arith, lt))
get_elem?-set (x ∷ xs) zero v lt = refl
get_elem?-set (x ∷ xs) (suc i) v lt = get_elem?-set xs i v (omega (arith, lt))

get_elem?-set_ne :
    (xs : List Hook) (i j : ℕ) (v : Hook) → j ≢ i → get_elem? (set xs i v) j ≡ get_elem? xs j
get_elem?-set_ne [] i j v ne = refl
get_elem?-set_ne (x ∷ xs) zero zero v ne = absurd (ne refl)
get_elem?-set_ne (x ∷ xs) zero (suc j) v ne = refl
get_elem?-set_ne (x ∷ xs) (suc i) zero v ne = refl
get_elem?-set_ne (x ∷ xs) (suc i) (suc j) v ne = get_elem?-set_ne xs i j v (λ e. ne (ap suc e))

length-void_hooks : (void n : ℕ) (xs : List Hook) → length (void_hooks void n xs) ≡ length xs
unfolding void_hooks
length-void_hooks void n [] = refl
length-void_hooks void zero (x ∷ xs) = refl
length-void_hooks void (suc n) (x ∷ xs) = ap suc (length-void_hooks void n xs)

get_elem?-void_hooks :
    (void n i : ℕ) (xs : List Hook)
    → i < n
    → i < length xs
    → (v : Hook) × (get_elem? (void_hooks void n xs) i ≡ some v) × (v.output ≡ void)
unfolding void_hooks
get_elem?-void_hooks void n i [] lt in_block = absurd (omega (arith, in_block))
get_elem?-void_hooks void zero i (x ∷ xs) lt in_block = absurd (omega (arith, lt))
get_elem?-void_hooks void (suc n) zero (x ∷ xs) lt in_block = (_, refl, refl)
get_elem?-void_hooks void (suc n) (suc i) (x ∷ xs) lt in_block =
    get_elem?-void_hooks void n i xs (omega (arith, lt)) (omega (arith, in_block))

-- The slots that the block of the table has.
abbrev pub slots : UserIo → ℕ
slots io = elim io.hooks [ none ↦ 0 | some hooks ↦ length hooks ]

-- The slot has no output hook.
abbrev pub IsVoid : ℕ → Option Hook → Type 0
IsVoid void slot = (v : Hook) × (slot ≡ some v) × (v.output ≡ void)

-- The table has the slots that its length says.
abbrev pub IsSound : UserIo → Type 0
IsSound io = io.hooks_len ≤ slots io

-- JS_realloc gives a block of the length asked for, which starts as the old one did.
pub record IsRealloc (realloc : Option (List Hook) → ℕ → Option (List Hook)) : Type 0 where
  pub sized :
      (old : Option (List Hook)) (n : ℕ)
      → (block : List Hook) × (realloc old n ≡ some block) × (length block ≡ n)
  pub kept :
      (old block : List Hook) (n i : ℕ)
      → realloc (some old) n ≡ some block
      → i < length old
      → i < n
      → get_elem? block i ≡ get_elem? old i

module _ (void : ℕ) (realloc : Option (List Hook) → ℕ → Option (List Hook))
    (r : IsRealloc realloc) where
  -- The table that a descriptor gets: it has its slot, and those there were; the slots of a first table
  -- have no output hook.
  abbrev IsRoom : ℕ → UserIo → Type 0
  IsRoom fd io =
      (hooks : List Hook) × (n : ℕ) × (make_hooks void realloc fd io
        ≡ (true, record io { hooks_len = n; hooks = some hooks }))
      × (n ≤ length hooks)
      × (fd < n)
      × (io.hooks_len ≤ n)
      × ((i : ℕ) → i < io.hooks_len → get_elem? hooks i ≡ hook_at i io)
      × (io.hooks ≡ none → (i : ℕ) → i < n → IsVoid void (get_elem? hooks i))

  make_hooks_first :
      (fd len : ℕ) (hooked : Bool)
      → fd < 3
      → len ≤ 0
      → IsRoom fd (record { hooks = none; hooks_len = len; hooked = hooked })
  unfolding make_hooks hook_at
  make_hooks_first fd len hooked std sound =
      let n = 1 + min fd 2 in
      let (block, given, size) = r.sized none n in
      let small : leb len (min fd 2) ≡ true = ground (arith, sound) in
      (
        void_hooks void n block,
        n,
        rw (small, given),
        omega (arith, size, length-void_hooks void n block),
        omega (arith, std),
        omega (arith, sound),
        λ i lt. absurd (omega (arith, sound, lt)),
        λ e i lt. get_elem?-void_hooks void n i block lt (omega (arith, size, lt)),
      )

  make_hooks_next :
      (fd len : ℕ) (hooked : Bool) (old : List Hook)
      → fd < 3
      → len ≤ length old
      → IsRoom fd (record { hooks = some old; hooks_len = len; hooked = hooked })
  unfolding make_hooks hook_at
  make_hooks_next fd len hooked old std sound =
      let n = 1 + min fd 2 in
      let (block, given, size) = r.sized (some old) n in
      elim (Bool-cases (leb len (min fd 2))) [
        | inl h ↦ (
          block,
          n,
          rw (h, given),
          omega (arith, size),
          omega (arith, std),
          ground (arith, h),
          λ i lt. r.kept old block n i given (omega (arith, lt, sound)) (ground (arith, h, lt)),
          λ e. absurd (none-ne-some _ (sym e)),
        )
        | inr h ↦ (
          old,
          len,
          rw (h),
          sound,
          ground (arith, h, std),
          omega arith,
          λ i lt. refl,
          λ e. absurd (none-ne-some _ (sym e)),
        )
      ]

  make_hooks-IsRoom : (fd : ℕ) (io : UserIo) → fd < 3 → IsSound io → IsRoom fd io
  make_hooks-IsRoom fd io std sound = go io.hooks std sound
    where
      go :
          (old : Option (List Hook))
          → fd < 3
          → io.hooks_len ≤ (elim old [ none ↦ 0 | some hooks ↦ length hooks ])
          → IsRoom fd (record { hooks = old; hooks_len = io.hooks_len; hooked = io.hooked })
      go none std sound = make_hooks_first fd io.hooks_len io.hooked std sound
      go (some old) std sound = make_hooks_next fd io.hooks_len io.hooked old std sound

  -- Where JS_realloc finds memory, hooking a standard descriptor of a sound table leaves a sound table,
  -- in which the descriptor has the new hooks and every other one of the table those it had; a first
  -- table has no output hook for the others.
  pub hook_file_descriptor-IsSound :
      (fd input output realm : ℕ) (io : UserIo)
      → fd < 3
      → IsSound io
      → (io' : UserIo) × (hook_file_descriptor void realloc fd input output realm io
          ≡ some (true, io'))
        × IsSound io'
        × (io'.hooked ≡ true)
        × (fd < io'.hooks_len)
        × (io.hooks_len ≤ io'.hooks_len)
        × (hook_at fd io' ≡ some (record { realm = realm; input = input; output = output }))
        × ((i : ℕ) → i < io.hooks_len → i ≢ fd → hook_at i io' ≡ hook_at i io)
        × (io.hooks ≡ none → (i : ℕ) → i < io'.hooks_len → i ≢ fd → IsVoid void (hook_at i io'))
  unfolding hook_file_descriptor hook_at
  hook_file_descriptor-IsSound fd input output realm io std sound =
      let (hooks, n, made, room, inside, grown, kept, first) = make_hooks-IsRoom fd io std sound in
      let hook : Hook = record { realm = realm; input = input; output = output } in
      let in_block : ltb fd (length hooks) ≡ true = ground (arith, room, inside) in
      (
        record io { hooks = some (set hooks fd hook); hooks_len = n; hooked = true },
        rw (made, in_block),
        omega (arith, room, length-set hooks fd hook),
        refl,
        inside,
        grown,
        get_elem?-set hooks fd hook (omega (arith, room, inside)),
        λ i lt ne. get_elem?-set_ne hooks fd i hook ne ∙ kept i lt,
        λ e i lt ne. rw (get_elem?-set_ne hooks fd i hook ne) (first e i lt),
      )

  -- Where JS_realloc finds memory, hooking another descriptor writes behind a table of at most three
  -- slots.
  pub hook_file_descriptor-none :
      (fd input output realm : ℕ) (io : UserIo)
      → 3 ≤ fd
      → slots io ≤ 3
      → hook_file_descriptor void realloc fd input output realm io ≡ none
  unfolding hook_file_descriptor make_hooks
  hook_file_descriptor-none fd input output realm io far small = go io.hooks small
    where
      past : (block : List Hook) → length block ≤ 3 → ltb fd (length block) ≡ false
      past block le = ground (arith, le, far)

      go :
          (old : Option (List Hook))
          → (elim old [ none ↦ 0 | some hooks ↦ length hooks ]) ≤ 3
          → hook_file_descriptor void realloc fd input output realm (record io { hooks = old })
            ≡ none
      go none small =
          let n = 1 + min fd 2 in
          let (block, given, size) = r.sized none n in
          elim (Bool-cases (leb io.hooks_len (min fd 2))) [
            | inl h ↦ rw (
              h,
              given,
              past (void_hooks void n block) (omega (arith, size, length-void_hooks void n block)),
            )
            | inr h ↦ rw (h)
          ]
      go (some old) small =
          let (block, given, size) = r.sized (some old) (1 + min fd 2) in
          elim (Bool-cases (leb io.hooks_len (min fd 2))) [
            | inl h ↦ rw (h, given, past block (omega (arith, size)))
            | inr h ↦ rw (h, past old small)
          ]

-- When JS_realloc fails for a table that is too short, the length has grown without the block.
pub hook_file_descriptor_refused :
    (void : ℕ) (realloc : Option (List Hook) → ℕ → Option (List Hook)) (fd input output realm : ℕ)
    (io : UserIo)
    → realloc io.hooks (1 + min fd 2) ≡ none
    → io.hooks_len ≤ min fd 2
    → hook_file_descriptor void realloc fd input output realm io
      ≡ some (false, record io { hooks_len = 1 + min fd 2 })
unfolding hook_file_descriptor make_hooks
hook_file_descriptor_refused void realloc fd input output realm io refused short =
    let small : leb io.hooks_len (min fd 2) ≡ true = ground (arith, short) in rw (small, refused)
