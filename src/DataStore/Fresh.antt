-- ===== src/DataStore/Fresh.antt =====
-- The static `ds_create` of gpsee_datastores.c.
use gpsee.Base.{ℕ, ◌*◌, ◌≡◌, ◌≢◌, ◌⊎◌, ◌↔◌, false, none, some, arith, length, length-replicate}
use gpsee.Platform.{Platform}
use gpsee.DataStore.{Store, null_slot, slot_bytes, store_bytes, ds_create, get, has_data}
use gpsee.DataStore.Slots.{blank_slots}

-- `hint` slots in which no key is found.
pub record IsBlank {W : Type 0} (p : Platform W) (hint : ℕ) (s : Store) : Type 0 where
  pub sized : length s.slots ≡ hint
  pub no_data : (w : W) → (has_data p s w).0 ≡ false
  pub reads_null : (k : ℕ) (w : W) → k ≢ 0 → (get p s k w).0 ≡ 0

module _ {W : Type 0} (p : Platform W) (hint : ℕ) where
  pub ds_create-IsBlank :
      {s : Store} (m f : ℕ)
      → ds_create p hint ≡ some s
      → IsBlank p hint (record s { monitor = m; flags = f })
  unfolding ds_create get has_data
  ds_create-IsBlank m f h = record {
    sized = ground (arith, length-replicate hint null_slot);
    no_data = λ w. ground (arith, blank_slots hint);
    reads_null = λ k w pos. ground (arith, (blank_slots hint).1 k pos, (blank_slots 0).1 k pos);
  }

  pub ds_create-none :
      (ds_create p hint ≡ none)
      ↔ ((p.grants store_bytes ≡ false) ⊎ ((hint ≢ 0) × (p.grants (slot_bytes * hint) ≡ false)))
  unfolding ds_create
  ds_create-none = ground arith
