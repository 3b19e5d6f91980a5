-- ===== src/DataStore/Slots.antt =====
-- The loops over the slots of gpsee_datastores.c: what each finds and what it changes.
use gpsee.Base.{
  ℕ, zero, suc, ◌+◌, ◌-◌, ◌<◌, ◌≡◌, ◌≢◌, ap, ◌∙◌, inl, inr, refl, Bool, true, false, ◌&&◌, List, [],
  ◌∷◌, ◌++◌, none, some, arith, ◌==◌, Option-cases, if◌then◌else◌, length, set, replicate,
  length-append, length-set, length-replicate,
}
use gpsee.DataStore.{
  Slot, null_slot, find, place, new_size, extend, clear, any_key, clear_match, any_key,
}

abbrev pub to_nat : Bool → ℕ
to_nat true = 1
to_nat false = 0

-- How many slots hold a key.
unfoldable pub count_key : ℕ → List Slot → ℕ
count_key k [] = 0
count_key k (s ∷ ss) = to_nat (s.key == k) + count_key k ss

-- How many slots hold a key with a value.
unfoldable pub count_entry : ℕ → ℕ → List Slot → ℕ
count_entry k v [] = 0
count_entry k v (s ∷ ss) = to_nat (s.key == k && s.value == v) + count_entry k v ss

-- A table grows, and its size stays a multiple of 128 once it has reached 100 slots.
pub new_size-grows : (n : ℕ) → n < new_size n
unfolding new_size
new_size-grows n = ground arith

pub find-place : (k v : ℕ) (ss r : List Slot) → place k v ss ≡ some r → find k r ≡ v
unfolding find place
find-place k v [] r h = cc
find-place k v (s ∷ ss) r h = elim (Option-cases (place k v ss)) [
  | inl e ↦ ground arith
  | inr (q, e) ↦ ground (arith, find-place k v ss q e)
]

pub find-place_ne :
    (k v j : ℕ) (ss r : List Slot) → place k v ss ≡ some r → j ≢ k → j ≢ 0 → find j r ≡ find j ss
unfolding find place
find-place_ne k v j [] r h ne pos = cc
find-place_ne k v j (s ∷ ss) r h ne pos = elim (Option-cases (place k v ss)) [
  | inl e ↦ ground arith
  | inr (q, e) ↦ ground (arith, find-place_ne k v j ss q e ne pos)
]

pub find-place-none : (k v : ℕ) (ss : List Slot) → place k v ss ≡ none → count_key k ss ≡ 0
unfolding place count_key
find-place-none k v [] h = refl
find-place-none k v (s ∷ ss) h = ground (arith, find-place-none k v ss)

set-append {ℓ} :
    {A : Type ℓ} (xs ys : List A) (y v : A) → set (xs ++ y ∷ ys) (length xs) v ≡ xs ++ v ∷ ys
set-append [] ys y v = refl
set-append (x ∷ xs) ys y v = rw (set-append xs ys y v)

abbrev pub spare : ℕ → List Slot
spare n = replicate (new_size n - n - 1) null_slot

pub extend-append :
    (k v : ℕ) (ss : List Slot)
    → extend k v ss ≡ ss ++ record { key = k; value = v } ∷ spare (length ss)
unfolding extend
extend-append k v ss =
    let n = length ss in
    let slot : Slot = record { key = k; value = v } in
    let e : new_size n - n ≡ suc (new_size n - n - 1) = omega (arith, new_size-grows n) in
    ap (λ (t : ℕ). set (ss ++ replicate t null_slot) n slot) e
    ∙ set-append ss (spare n) null_slot slot

pub find-append :
    (j : ℕ) (xs ys : List Slot)
    → find j (xs ++ ys) ≡ (if count_key j xs == 0 then find j ys else find j xs)
unfolding find count_key
find-append j [] ys = refl
find-append j (s ∷ xs) ys = ground (arith, find-append j xs ys)

find-replicate : (j n : ℕ) → j ≢ 0 → find j (replicate n null_slot) ≡ 0
unfolding find
find-replicate j zero pos = refl
find-replicate j (suc n) pos = ground (arith, find-replicate j n pos)

pub find_absent : (j : ℕ) (ss : List Slot) → count_key j ss ≡ 0 → find j ss ≡ 0
unfolding find count_key
find_absent j [] h = refl
find_absent j (s ∷ ss) h = ground (arith, find_absent j ss)

pub find-extend : (k v : ℕ) (ss : List Slot) → count_key k ss ≡ 0 → find k (extend k v ss) ≡ v
unfolding find
find-extend k v ss h = rw (extend-append, find-append, h) (ground arith)

pub find-extend_ne :
    (k v j : ℕ) (ss : List Slot) → j ≢ k → j ≢ 0 → find j (extend k v ss) ≡ find j ss
unfolding find
find-extend_ne k v j ss ne pos =
    rw (extend-append, find-append)
      (ground (arith, find_absent j ss, find-replicate j (new_size (length ss) - length ss - 1)))

pub find-clear_ne : (k j : ℕ) (ss : List Slot) → j ≢ k → j ≢ 0 → find j (clear k ss).1 ≡ find j ss
unfolding find clear
find-clear_ne k j [] ne pos = refl
find-clear_ne k j (s ∷ ss) ne pos = ground (arith, find-clear_ne k j ss ne pos)

pub clear-find : (k : ℕ) (ss : List Slot) → (clear k ss).0 ≡ find k ss
unfolding find clear
clear-find k [] = refl
clear-find k (s ∷ ss) = ground (arith, clear-find k ss)

pub count_key-clear :
    (k : ℕ) (ss : List Slot) → k ≢ 0 → count_key k (clear k ss).1 ≡ count_key k ss - 1
unfolding count_key clear
count_key-clear k [] pos = omega arith
count_key-clear k (s ∷ ss) pos = ground (arith, count_key-clear k ss pos)

pub count_entry-clear_match :
    (k v : ℕ) (ss : List Slot)
    → k ≢ 0
    → count_entry k v (clear_match k v ss).1 + to_nat (clear_match k v ss).0 ≡ count_entry k v ss
unfolding count_entry clear_match
count_entry-clear_match k v [] pos = omega arith
count_entry-clear_match k v (s ∷ ss) pos = ground (arith, count_entry-clear_match k v ss pos)

-- The first slot that is empty or holds `k` is empty: an entry stands behind a hole.
unfoldable pub hole_first : ℕ → List Slot → Bool
hole_first k [] = false
hole_first k (s ∷ ss) = if s.key == k then false else (if s.key == 0 then true else hole_first k ss)

pub count_key-place :
    (k v j : ℕ) (ss r : List Slot)
    → k ≢ 0
    → j ≢ 0
    → place k v ss ≡ some r
    → count_key j r ≡ to_nat (j == k && hole_first k ss) + count_key j ss
unfolding place count_key hole_first
count_key-place k v j [] r pos posj h = cc
count_key-place k v j (s ∷ ss) r pos posj h = elim (Option-cases (place k v ss)) [
  | inl e ↦ ground arith
  | inr (q, e) ↦ ground (arith, count_key-place k v j ss q pos posj e)
]

pub count_key-append :
    (j : ℕ) (xs ys : List Slot) → count_key j (xs ++ ys) ≡ count_key j xs + count_key j ys
unfolding count_key
count_key-append j [] ys = omega arith
count_key-append j (s ∷ xs) ys = omega (arith, count_key-append j xs ys)

pub count_entry-append :
    (k v : ℕ) (xs ys : List Slot)
    → count_entry k v (xs ++ ys) ≡ count_entry k v xs + count_entry k v ys
unfolding count_entry
count_entry-append k v [] ys = omega arith
count_entry-append k v (s ∷ xs) ys = omega (arith, count_entry-append k v xs ys)

pub count_key-replicate : (j n : ℕ) → j ≢ 0 → count_key j (replicate n null_slot) ≡ 0
unfolding count_key
count_key-replicate j zero pos = refl
count_key-replicate j (suc n) pos = ground (arith, count_key-replicate j n pos)

count_entry-replicate : (k v n : ℕ) → k ≢ 0 → count_entry k v (replicate n null_slot) ≡ 0
unfolding count_entry
count_entry-replicate k v zero pos = refl
count_entry-replicate k v (suc n) pos = ground (arith, count_entry-replicate k v n pos)

pub count_key-extend :
    (k v j : ℕ) (ss : List Slot)
    → j ≢ 0
    → count_key j (extend k v ss) ≡ to_nat (j == k) + count_key j ss
unfolding count_key
count_key-extend k v j ss pos =
    rw (extend-append, count_key-append)
      (ground (arith, count_key-replicate j (new_size (length ss) - length ss - 1)))

pub count_entry-extend :
    (k v j u : ℕ) (ss : List Slot)
    → j ≢ 0
    → count_entry j u (extend k v ss) ≡ to_nat (j == k && u == v) + count_entry j u ss
unfolding count_entry
count_entry-extend k v j u ss pos =
    rw (extend-append, count_entry-append)
      (ground (arith, count_entry-replicate j u (new_size (length ss) - length ss - 1)))

pub count_key-clear_ne :
    (k j : ℕ) (ss : List Slot) → j ≢ 0 → j ≢ k → count_key j (clear k ss).1 ≡ count_key j ss
unfolding count_key clear
count_key-clear_ne k j [] pos ne = refl
count_key-clear_ne k j (s ∷ ss) pos ne = ground (arith, count_key-clear_ne k j ss pos ne)

-- Whatever is cleared, no other entry changes.
pub count_entry-clear_match_ne :
    (k v j u : ℕ) (ss : List Slot)
    → j ≢ 0
    → (j == k && u == v) ≡ false
    → count_entry j u (clear_match k v ss).1 ≡ count_entry j u ss
unfolding count_entry clear_match
count_entry-clear_match_ne k v j u [] pos ne = refl
count_entry-clear_match_ne k v j u (s ∷ ss) pos ne =
    ground (arith, count_entry-clear_match_ne k v j u ss pos ne)

pub clear_match_found :
    (k v : ℕ) (ss : List Slot)
    → (clear_match k v ss).0 ≡ (if count_entry k v ss == 0 then false else true)
unfolding count_entry clear_match
clear_match_found k v [] = refl
clear_match_found k v (s ∷ ss) = ground (arith, clear_match_found k v ss)

-- What `place` wrote into the hole, `clear` takes out: the old entry is found again.
pub find-clear-place_hole :
    (k v : ℕ) (ss r : List Slot)
    → k ≢ 0
    → hole_first k ss ≡ true
    → place k v ss ≡ some r
    → find k (clear k r).1 ≡ find k ss
unfolding place find clear hole_first
find-clear-place_hole k v [] r pos hole h = cc
find-clear-place_hole k v (s ∷ ss) r pos hole h = elim (Option-cases (place k v ss)) [
  | inl e ↦ ground arith
  | inr (q, e) ↦ ground (arith, find-clear-place_hole k v ss q pos)
]

pub place-eq-none : (k v : ℕ) (ss : List Slot) → place k v ss ≡ none → count_key 0 ss ≡ 0
unfolding place count_key
place-eq-none k v [] h = refl
place-eq-none k v (s ∷ ss) h = ground (arith, place-eq-none k v ss)

pub place-eq-some :
    (k v : ℕ) (ss r : List Slot) → place k v ss ≡ some r → 0 < count_key k ss + count_key 0 ss
unfolding place count_key
place-eq-some k v [] r h = cc
place-eq-some k v (s ∷ ss) r h = elim (Option-cases (place k v ss)) [
  | inl e ↦ ground arith
  | inr (q, e) ↦ ground (arith, place-eq-some k v ss q e)
]

pub length-place : (k v : ℕ) (ss r : List Slot) → place k v ss ≡ some r → length r ≡ length ss
unfolding place
length-place k v [] r h = cc
length-place k v (s ∷ ss) r h = elim (Option-cases (place k v ss)) [
  | inl e ↦ ground arith
  | inr (q, e) ↦ ground (arith, length-place k v ss q e)
]

pub length-clear : (k : ℕ) (ss : List Slot) → length (clear k ss).1 ≡ length ss
unfolding clear
length-clear k [] = refl
length-clear k (s ∷ ss) = ground (arith, length-clear k ss)

pub length-extend : (k v : ℕ) (ss : List Slot) → length (extend k v ss) ≡ new_size (length ss)
unfolding extend
length-extend k v ss =
    let n = length ss in
    length-set (ss ++ replicate (new_size n - n) null_slot) n (record { key = k; value = v })
    ∙ (length-append ss (replicate (new_size n - n) null_slot)
        ∙ omega (arith, length-replicate (new_size n - n) null_slot, new_size-grows n))

pub hole_first-count : (k : ℕ) (ss : List Slot) → hole_first k ss ≡ true → 0 < count_key 0 ss
unfolding hole_first count_key
hole_first-count k [] h = cc
hole_first-count k (s ∷ ss) h = ground (arith, hole_first-count k ss)

pub fresh_hole_first :
    (k : ℕ) (ss : List Slot) → count_key k ss ≡ 0 → 0 < count_key 0 ss → hole_first k ss ≡ true
unfolding hole_first count_key
fresh_hole_first k [] h c = absurd (omega arith)
fresh_hole_first k (s ∷ ss) h c = ground (arith, fresh_hole_first k ss)

pub blank_slots :
    (n : ℕ)
    → (any_key (replicate n null_slot) ≡ false)
      × ((k : ℕ) → k ≢ 0 → find k (replicate n null_slot) ≡ 0)
unfolding any_key
blank_slots zero = (refl, λ k pos. find-replicate k 0 pos)
blank_slots (suc n) = ((blank_slots n).0, λ k pos. find-replicate k (suc n) pos)

-- The slot after a stretch without the entry is the one that `clear_match` clears.
pub clear_match-append :
    (k v : ℕ) (xs : List Slot) (s : Slot) (ys : List Slot)
    → count_entry k v xs ≡ 0
    → s.key ≡ k
    → s.value ≡ v
    → clear_match k v (xs ++ s ∷ ys) ≡ (true, xs ++ record s { key = 0 } ∷ ys)
unfolding clear_match count_entry
clear_match-append k v [] s ys none_yet is_k is_v = ground arith
clear_match-append k v (x ∷ xs) s ys none_yet is_k is_v =
    ground (arith, clear_match-append k v xs s ys)
