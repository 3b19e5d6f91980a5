-- ===== src/DataStore/Held.antt =====
-- What the slots of a store of gpsee_datastores.c hold, as a map from keys to values.
use gpsee.Base.{
  ℕ, ◌≤◌, ◌≡◌, ◌≢◌, ◌⊎◌, inl, inr, Bool, true, false, List, none, some, arith, ◌==◌, Bool-cases,
  if◌then◌else◌, replicate,
}
use gpsee.Platform.{Platform}
use gpsee.DataStore.{Slot, null_slot, Store, find, place, clear, extend, ds_create}
use gpsee.DataStore.Slots.{
  count_key, hole_first, count_key-place, count_key-extend, place-eq-none, find-place,
  find-place_ne, find-extend, find-extend_ne, find-place-none, find-clear_ne, count_key-clear,
  count_key-clear_ne, find_absent, blank_slots, count_key-replicate,
}
use gpsee.DataStore.Packed.{
  IsPacked, IsPacked-hole_first, IsPacked-place, IsPacked-replicate, IsPacked-extend,
}

-- The map with another value at the key.
abbrev pub assign {ℓ} : {A : Type ℓ} → (ℕ → A) → ℕ → A → ℕ → A
assign f k v j = if j == k then v else f j

-- The slots hold the map. `present` has every key that may be there, and before the first remove the
-- table has no holes.
pub record Holds (ss : List Slot) (present : ℕ → Bool) (removed : Bool) (m : ℕ → ℕ) : Type 0 where
  pub unique : (k : ℕ) → k ≢ 0 → count_key k ss ≤ 1
  pub absent : (k : ℕ) → k ≢ 0 → present k ≡ false → count_key k ss ≡ 0
  pub reads : (k : ℕ) → k ≢ 0 → find k ss ≡ m k
  pub packed : removed ≡ false → IsPacked ss

-- The key is not there, or nothing has been removed.
abbrev pub IsClear : (ℕ → Bool) → Bool → ℕ → Type 0
IsClear present removed k = (present k ≡ false) ⊎ (removed ≡ false)

module _ (present : ℕ → Bool) (removed : Bool) (m : ℕ → ℕ) (ss : List Slot)
    (h : Holds ss present removed m) (k : ℕ) (pos : k ≢ 0) where
  no_double : IsClear present removed k → (hole_first k ss ≡ false) ⊎ (count_key k ss ≡ 0)
  no_double (inl e) = inr (h.absent k pos e)
  no_double (inr e) = elim (Bool-cases (count_key k ss == 0)) [
    | inl c ↦ inr (ground (arith, c))
    | inr c ↦ inl (IsPacked-hole_first k ss pos (h.packed e) (ground (arith, c)))
  ]

  pub Holds-place :
      (v : ℕ) (r : List Slot)
      → IsClear present removed k
      → place k v ss ≡ some r
      → Holds r (assign present k true) removed (assign m k v)
  Holds-place v r free e = record {
    unique = λ j posj.
        ground (arith, no_double free, h.unique j posj, count_key-place k v j ss r pos posj e);
    absent = λ j posj a. ground (arith, h.absent j posj, count_key-place k v j ss r pos posj e);
    reads =
        λ j posj. ground (arith, h.reads j posj, find-place k v ss r e, find-place_ne k v j ss r e);
    packed = λ p. IsPacked-place k v ss r pos e (h.packed p);
  }

  pub Holds-extend :
      (v : ℕ)
      → place k v ss ≡ none
      → Holds (extend k v ss) (assign present k true) removed (assign m k v)
  Holds-extend v e = record {
    unique = λ j posj.
        ground (arith, h.unique j posj, count_key-extend k v j ss posj, find-place-none k v ss e);
    absent = λ j posj a. ground (arith, h.absent j posj, count_key-extend k v j ss posj);
    reads = λ j posj. ground (
      arith,
      h.reads j posj,
      find-extend k v ss (find-place-none k v ss e),
      find-extend_ne k v j ss,
    );
    packed = λ p. IsPacked-extend k v ss pos (place-eq-none k v ss e);
  }

  pub Holds-clear : Holds (clear k ss).1 (assign present k false) true (assign m k 0)
  Holds-clear = record {
    unique = λ j posj.
        ground (arith, h.unique j posj, count_key-clear k ss pos, count_key-clear_ne k j ss posj);
    absent = λ j posj a. ground (
      arith,
      h.unique j posj,
      h.absent j posj,
      count_key-clear k ss pos,
      count_key-clear_ne k j ss posj,
    );
    reads = λ j posj. ground (
      arith,
      h.reads j posj,
      h.unique k pos,
      find-clear_ne k j ss,
      count_key-clear k ss pos,
      find_absent k (clear k ss).1,
    );
    packed = λ p. cc;
  }

  pub Holds-more : Holds ss (assign present k true) removed m
  Holds-more = record {
    unique = h.unique;
    absent = λ j posj a. ground (arith, h.absent j posj);
    reads = h.reads;
    packed = h.packed;
  }

pub Holds-blank : (n : ℕ) → Holds (replicate n null_slot) (λ k. false) false (λ k. 0)
Holds-blank n = record {
  unique = λ k pos. omega (arith, count_key-replicate k n pos);
  absent = λ k pos e. count_key-replicate k n pos;
  reads = (blank_slots n).1;
  packed = λ e. IsPacked-replicate n;
}

pub slots-ds_create :
    {W : Type 0} (p : Platform W) (hint : ℕ) (s : Store)
    → ds_create p hint ≡ some s
    → s.slots ≡ replicate hint null_slot
unfolding ds_create
slots-ds_create p hint s made = ground arith
