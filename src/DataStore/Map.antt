-- ===== src/DataStore/Map.antt =====
-- A data store without GPSEE_DS_OTM_KEYS (gpsee_datastores.c) against a map from keys to values.
use gpsee.Base.{
  ℕ, ◌+◌, ◌-◌, ◌*◌, ◌≤◌, ◌≡◌, ◌≢◌, ◌⊎◌, ◌↔◌, inl, inr, true, false, arith, ◌==◌, Option-cases,
  if◌then◌else◌, length,
}
use gpsee.Platform.{Platform}
use gpsee.DataStore.{
  Store, otm_keys, has_flag, place, clear, new_size, slot_bytes, grow, get, put, remove,
}
use gpsee.DataStore.Slots.{
  count_key, hole_first, to_nat, find-place, find-place_ne, find-place-none, find-extend,
  find-extend_ne, clear-find, find-clear_ne, count_key-clear, count_key-clear_ne, count_key-place,
  count_key-extend, find-clear-place_hole, fresh_hole_first, place-eq-none, place-eq-some,
  hole_first-count, find_absent,
}

-- No key but NULL stands in two slots.
abbrev pub IsMap : Store → Type 0
IsMap s = (k : ℕ) → k ≢ 0 → count_key k s.slots ≤ 1

module _ {W : Type 0} (p : Platform W) (s : Store) (k v : ℕ) (w : W) where
  abbrev after : Store
  after = (put p s k v w).1

  -- A put that succeeds in a store without GPSEE_DS_OTM_KEYS is seen by the next get of its key.
  pub get-put :
      (w' : W)
      → has_flag s.flags otm_keys ≡ false
      → (put p s k v w).0 ≡ true
      → (get p after k w').0 ≡ v
  unfolding put grow get
  get-put w' plain done = elim (Option-cases (place k v s.slots)) [
    | inr (r, e) ↦ ground (arith, find-place k v s.slots r e)
    | inl e ↦ ground (arith, find-extend k v s.slots (find-place-none k v s.slots e))
  ]

  -- A put, whatever its result and the flags, leaves what a get of any other key but NULL returns.
  pub get-put_ne : (j : ℕ) (w' : W) → j ≢ k → j ≢ 0 → (get p after j w').0 ≡ (get p s j w').0
  unfolding put grow get
  get-put_ne j w' ne pos = elim (Option-cases (place k v s.slots)) [
    | inr (r, e) ↦
        ground (arith, find-place_ne k v j s.slots r e ne pos, find-extend_ne k v j s.slots ne pos)
    | inl e ↦ ground (arith, find-extend_ne k v j s.slots ne pos)
  ]

  -- A put returns JS_FALSE exactly when it has to grow the table (one-to-many keys, or no slot that
  -- is empty or has the key) and the allocator refuses; then the store is as it was before.
  pub put-eq-false : ((put p s k v w).0 ≡ false) ↔ (
      (p.grants (new_size (length s.slots) * slot_bytes) ≡ false)
      × ((has_flag s.flags otm_keys ≡ true) ⊎ (count_key k s.slots + count_key 0 s.slots ≡ 0))
      × (after ≡ s))
  unfolding put grow
  put-eq-false = elim (Option-cases (place k v s.slots)) [
    | inr (r, e) ↦ ground (arith, place-eq-some k v s.slots r e)
    | inl e ↦ ground (arith, place-eq-none k v s.slots e, find-place-none k v s.slots e)
  ]

  -- A put into a store without GPSEE_DS_OTM_KEYS in which no key stands twice keeps it so, if the
  -- key is new or no empty slot stands before its slot.
  pub put-IsMap :
      has_flag s.flags otm_keys ≡ false
      → k ≢ 0
      → (hole_first k s.slots ≡ false) ⊎ (count_key k s.slots ≡ 0)
      → IsMap s
      → IsMap after
  unfolding put grow
  put-IsMap plain pos fresh unique j posj = elim (Option-cases (place k v s.slots)) [
    | inr (r, e) ↦ ground (arith, unique j posj, count_key-place k v j s.slots r pos posj e)
    | inl e ↦
        ground
          (arith, unique j posj, count_key-extend k v j s.slots posj, find-place-none k v s.slots e)
  ]

  -- In a store without GPSEE_DS_OTM_KEYS, a put of a key whose slot stands behind an empty one
  -- succeeds in the empty slot, and a remove of the key then brings back the value that the put
  -- should have overwritten.
  pub remove-put_behind_hole :
      (w' w'' : W)
      → has_flag s.flags otm_keys ≡ false
      → k ≢ 0
      → hole_first k s.slots ≡ true
      → ((put p s k v w).0 ≡ true) × ((get p (remove p after k w').1 k w'').0 ≡ (get p s k w'').0)
  unfolding put grow get remove
  remove-put_behind_hole w' w'' plain pos hole = elim (Option-cases (place k v s.slots)) [
    | inr (r, e) ↦ ground (arith, find-clear-place_hole k v s.slots r pos hole e)
    | inl e ↦ absurd (omega (arith, hole_first-count k s.slots hole, place-eq-none k v s.slots e))
  ]

module _ {W : Type 0} (p : Platform W) (s : Store) (k : ℕ) (w : W) where
  -- A remove returns what a get of the key returns.
  pub remove-get : (w' : W) → (remove p s k w).0 ≡ (get p s k w').0
  unfolding remove get
  remove-get w' = clear-find k s.slots

  -- Where no key but NULL stands twice, a key that is not NULL is gone after its remove, every other
  -- key but NULL reads as before, and still no key stands twice.
  pub get-remove :
      (j : ℕ) (w' : W)
      → IsMap s
      → k ≢ 0
      → j ≢ 0
      → ((get p (remove p s k w).1 j w').0 ≡ (if j == k then 0 else (get p s j w').0))
        × IsMap (remove p s k w).1
  unfolding remove get
  get-remove j w' unique pos posj = (
    ground (
      arith,
      unique k pos,
      find-clear_ne k j s.slots,
      count_key-clear k s.slots pos,
      find_absent k (clear k s.slots).1,
    ),
    λ i posi.
        ground (
          arith,
          unique i posi,
          count_key-clear k s.slots pos,
          count_key-clear_ne k i s.slots posi,
        ),
  )

module _ {W : Type 0} (p : Platform W) (s : Store) (k v j : ℕ) (w : W) where
  -- How often a key stands after a put of a key that was not there.
  pub count_key-put :
      has_flag s.flags otm_keys ≡ false
      → k ≢ 0
      → j ≢ 0
      → count_key k s.slots ≡ 0
      → count_key j (put p s k v w).1.slots
        ≡ (if (put p s k v w).0 then to_nat (j == k) else 0) + count_key j s.slots
  unfolding put grow
  count_key-put plain pos posj fresh = elim (Option-cases (place k v s.slots)) [
    | inr (r, e) ↦ ground (
      arith,
      count_key-place k v j s.slots r pos posj e,
      fresh_hole_first k s.slots fresh,
      place-eq-some k v s.slots r e,
    )
    | inl e ↦ ground (arith, count_key-extend k v j s.slots posj)
  ]

  pub count_key-remove :
      k ≢ 0 → j ≢ 0 → count_key j (remove p s k w).1.slots ≡ count_key j s.slots - to_nat (j == k)
  unfolding remove
  count_key-remove pos posj =
      ground (arith, count_key-clear k s.slots pos, count_key-clear_ne k j s.slots posj)
