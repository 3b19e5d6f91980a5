-- ===== src/DataStore/Bag.antt =====
-- A data store with GPSEE_DS_OTM_KEYS (gpsee_datastores.c) against a bag of entries.
use gpsee.Base.{
  ℕ, ◌+◌, ◌-◌, ◌≡◌, ◌≢◌, true, false, ◌&&◌, arith, ◌==◌, if◌then◌else◌, Bool-cases, inl, inr,
}
use gpsee.Platform.{Platform}
use gpsee.DataStore.{Store, otm_keys, has_flag, grow, put, match_remove}
use gpsee.DataStore.Slots.{
  to_nat, count_entry, count_entry-extend, count_entry-clear_match, count_entry-clear_match_ne,
  clear_match_found,
}

module _ {W : Type 0} (p : Platform W) (s : Store) (k v : ℕ) (w : W) (j u : ℕ) where
  -- Into a store with GPSEE_DS_OTM_KEYS, a put that succeeds adds one entry and changes the number
  -- of no other entry under a key that is not NULL.
  count_entry-put :
      has_flag s.flags otm_keys ≡ true
      → (put p s k v w).0 ≡ true
      → j ≢ 0
      → count_entry j u (put p s k v w).1.slots
        ≡ to_nat (j == k && u == v) + count_entry j u s.slots
  unfolding put grow
  count_entry-put otm done pos = ground (arith, count_entry-extend k v j u s.slots pos)

  -- A match_remove of a key that is not NULL returns whether the store had the entry, takes out one
  -- such entry if it had any, and changes the number of no other entry under a key but NULL.
  pub count_entry-match_remove :
      k ≢ 0
      → j ≢ 0
      → ((match_remove p s k v w).0 ≡ (if count_entry k v s.slots == 0 then false else true))
        × (count_entry j u (match_remove p s k v w).1.slots
            ≡ count_entry j u s.slots - to_nat (j == k && u == v))
  unfolding match_remove
  count_entry-match_remove posk pos = elim (Bool-cases (j == k && u == v)) [
    | inl same ↦
        ground (arith, clear_match_found k v s.slots, count_entry-clear_match k v s.slots posk)
    | inr other ↦
        ground (
          arith,
          clear_match_found k v s.slots,
          count_entry-clear_match_ne k v j u s.slots pos other,
        )
  ]
