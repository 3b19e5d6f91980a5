-- ===== src/DataStore.antt =====
-- gpsee_datastores.c: a table of slots that is searched from its start. A release build, so the
-- memory that a removal leaves is not overwritten. `size` is the length of `slots`; the sizes are
-- plain numbers, since a table of 2 ^ 60 slots of 16 bytes cannot be granted.
pub mod Slots
pub mod Fresh
pub mod Map
pub mod Bag
pub mod Packed
pub mod Held
pub mod Sequence
pub mod Locking
pub mod Iterate
use Prim.Native.Nat.{bit_and}
use gpsee.Base.{
  ℕ, zero, suc, ◌+◌, ◌-◌, ◌*◌, ◌%◌, Bool, true, false, not, List, [], ◌∷◌, ◌++◌, Option, none, some,
  ltb, ◌==◌, if◌then◌else◌, length, get_elem?, set, replicate,
}
use gpsee.Platform.{Platform}
use gpsee.Monitor.{nil_monitor, enter_monitor, leave_monitor}

pub record Slot : Type 0 where
  pub key : ℕ
  pub value : ℕ

pub record Store : Type 0 where
  pub slots : List Slot
  pub monitor : ℕ
  pub flags : ℕ

-- GPSEE_DS_UNLOCKED and GPSEE_DS_OTM_KEYS
abbrev pub unlocked : ℕ
unlocked = 1

abbrev pub otm_keys : ℕ
otm_keys = 2

abbrev pub has_flag : ℕ → ℕ → Bool
has_flag flags f = not (bit_and flags f == 0)

-- `sizeof(store->data[0])` and `sizeof(*store)`
abbrev pub slot_bytes : ℕ
slot_bytes = 16

abbrev pub store_bytes : ℕ
store_bytes = 40

abbrev pub null_slot : Slot
null_slot = record { key = 0; value = 0 }

-- The loop of `gpsee_ds_get`; NULL when it runs off the end.
unfoldable pub find : ℕ → List Slot → ℕ
find k [] = 0
find k (s ∷ ss) = if s.key == k then s.value else find k ss

-- The loop of `gpsee_ds_put`: the slots after a write, if it finds the key or an empty slot.
unfoldable pub place : ℕ → ℕ → List Slot → Option (List Slot)
place k v [] = none
place k v (s ∷ ss) =
    if s.key == k
    then some (record s { value = v } ∷ ss)
    else (if s.key == 0
        then some (record { key = k; value = v } ∷ ss)
        else (elim (place k v ss) [ none ↦ none | some r ↦ some (s ∷ r) ]))

-- The number of slots after a growth.
unfoldable pub new_size : ℕ → ℕ
new_size size =
    if ltb size 100
    then (if size == 0 then 1 else size * 2)
    else (let bigger = size + 128 in bigger - bigger % 128)

-- `memset` of the new slots, then the entry in the first of them.
unfoldable pub extend : ℕ → ℕ → List Slot → List Slot
extend k v ss =
    let size = length ss in
    set (ss ++ replicate (new_size size - size) null_slot) size (record { key = k; value = v })

-- The loop of `gpsee_ds_remove`: the key becomes NULL, the value stays.
unfoldable pub clear : ℕ → List Slot → ℕ × List Slot
clear k [] = (0, [])
clear k (s ∷ ss) =
    if s.key == k
    then (s.value, record s { key = 0 } ∷ ss)
    else (let (v, r) = clear k ss in (v, s ∷ r))

-- The loop of `gpsee_ds_match_remove`.
unfoldable pub clear_match : ℕ → ℕ → List Slot → Bool × List Slot
clear_match k v [] = (false, [])
clear_match k v (s ∷ ss) =
    if s.key == k
    then (if s.value == v
        then (true, record s { key = 0 } ∷ ss)
        else (let (found, r) = clear_match k v ss in (found, s ∷ r)))
    else (let (found, r) = clear_match k v ss in (found, s ∷ r))

-- The loop of `gpsee_ds_hasData`.
unfoldable pub any_key : List Slot → Bool
any_key [] = false
any_key (s ∷ ss) = if s.key == 0 then any_key ss else true

-- What a callback of `gpsee_ds_forEach` may read and change.
pub record State (W X : Type 0) : Type 0 where
  pub store : Store
  pub world : W
  pub user : X

-- `gpsee_ds_forEach_fn` with its context and private pointer applied: key, value.
abbrev pub Callback : Type 0 → Type 0 → Type 0
Callback W X = ℕ → ℕ → State W X → Bool × State W X

module _ {W : Type 0} (p : Platform W) where
  unfoldable pub get : Store → ℕ → W → ℕ × W
  get s k w =
      let w₁ = enter_monitor p s.monitor w in
      let ret = find k s.slots in (ret, leave_monitor p s.monitor w₁)

  -- The part of `gpsee_ds_put` below the comment "No overwrite, no empty slot".
  grow : Store → ℕ → ℕ → W → Bool × Store × W
  grow s k v w =
      if p.grants (new_size (length s.slots) * slot_bytes)
      then (true, record s { slots = extend k v s.slots }, leave_monitor p s.monitor w)
      else (false, s, leave_monitor p s.monitor w)

  unfoldable pub put : Store → ℕ → ℕ → W → Bool × Store × W
  unfolding grow
  put s k v w =
      let w₁ = enter_monitor p s.monitor w in
      if has_flag s.flags otm_keys then grow s k v w₁ else (elim (place k v s.slots) [
        | some ss ↦ (true, record s { slots = ss }, leave_monitor p s.monitor w₁)
        | none ↦ grow s k v w₁
      ])

  unfoldable pub remove : Store → ℕ → W → ℕ × Store × W
  remove s k w =
      let w₁ = enter_monitor p s.monitor w in
      let (value, ss) = clear k s.slots in
      (value, record s { slots = ss }, leave_monitor p s.monitor w₁)

  unfoldable pub match_remove : Store → ℕ → ℕ → W → Bool × Store × W
  match_remove s k v w =
      let w₁ = enter_monitor p s.monitor w in
      let (found, ss) = clear_match k v s.slots in
      (found, record s { slots = ss }, leave_monitor p s.monitor w₁)

  pub empty : Store → W → Store × W
  empty s w =
      let w₁ = enter_monitor p s.monitor w in
      (record s { slots = replicate (length s.slots) null_slot }, leave_monitor p s.monitor w₁)

  -- The static `ds_create`; the monitor and the flags are set by its caller.
  unfoldable pub ds_create : ℕ → Option Store
  ds_create hint =
      if p.grants store_bytes
      then (if hint == 0
          then some (record { slots = []; monitor = 0; flags = 0 })
          else (if p.grants (slot_bytes * hint)
              then some (record { slots = replicate hint null_slot; monitor = 0; flags = 0 })
              else none))
      else none

  -- The monitor is not left.
  pub has_data : Store → W → Bool × W
  has_data s w = let w₁ = enter_monitor p s.monitor w in (any_key s.slots, w₁)

module _ {W X : Type 0} (cb : Callback W X) where
  -- The loop of `gpsee_ds_forEach` from index `i`; the size and the slot are read anew in every
  -- round. `none` means that the fuel ran out.
  unfoldable pub for_each_loop : ℕ → ℕ → State W X → Option (Bool × State W X)
  for_each_loop zero i st = none
  for_each_loop (suc fuel) i st = elim (get_elem? st.store.slots i) [
    | none ↦ some (true, st)
    | some slot ↦ elim (slot.key == 0) [
      | true ↦ for_each_loop fuel (i + 1) st
      | false ↦
          let (more, st') = cb slot.key slot.value st in
          elim more [ true ↦ for_each_loop fuel (i + 1) st' | false ↦ some (false, st') ]
    ]
  ]

module _ {W X : Type 0} (p : Platform W) (cb : Callback W X) where
  -- Fuel for one round more than there are slots.
  unfoldable pub for_each : State W X → Option (Bool × State W X)
  for_each st =
      let entered = record st { world = enter_monitor p st.store.monitor st.world } in
      elim (for_each_loop cb (suc (length st.store.slots)) 0 entered) [
        | none ↦ none
        | some (done, st') ↦
            some (done, record st' { world = leave_monitor p st'.store.monitor st'.world })
      ]
