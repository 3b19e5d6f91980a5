-- ===== src/DataStore/Packed.antt =====
-- Tables of gpsee_datastores.c in which no entry stands behind an empty slot.
use gpsee.Base.{
  ℕ, zero, suc, ◌<◌, ◌≡◌, ◌≢◌, inl, inr, refl, false, List, [], ◌∷◌, ◌++◌, some, arith,
  Option-cases, length, replicate,
}
use gpsee.DataStore.{Slot, null_slot, place, extend, any_key}
use gpsee.DataStore.Slots.{count_key, hole_first, extend-append, spare, blank_slots}

-- No entry stands behind an empty slot.
abbrev pub IsPacked : List Slot → Type 0
IsPacked [] = Unit
IsPacked (s ∷ ss) = ((s.key ≡ 0) → any_key ss ≡ false) × IsPacked ss

any_key-count : (k : ℕ) (ss : List Slot) → k ≢ 0 → any_key ss ≡ false → count_key k ss ≡ 0
unfolding any_key count_key
any_key-count k [] pos h = refl
any_key-count k (s ∷ ss) pos h = ground (arith, any_key-count k ss)

pub IsPacked-hole_first :
    (k : ℕ) (ss : List Slot) → k ≢ 0 → IsPacked ss → 0 < count_key k ss → hole_first k ss ≡ false
unfolding hole_first count_key
IsPacked-hole_first k [] pos h c = refl
IsPacked-hole_first k (s ∷ ss) pos (h, hs) c =
    ground (arith, IsPacked-hole_first k ss pos hs, any_key-count k ss pos, h)

pub IsPacked-place :
    (k v : ℕ) (ss r : List Slot) → k ≢ 0 → place k v ss ≡ some r → IsPacked ss → IsPacked r
unfolding place
IsPacked-place k v [] r pos e p = cc
IsPacked-place k v (s ∷ ss) r pos e (h, hs) = elim (Option-cases (place k v ss)) [
  | inl n ↦ (ground arith)
  | inr (q, n) ↦ ground (arith, IsPacked-place k v ss q pos n hs)
]

IsPacked-append : (xs ys : List Slot) → count_key 0 xs ≡ 0 → IsPacked ys → IsPacked (xs ++ ys)
unfolding count_key
IsPacked-append [] ys c p = p
IsPacked-append (s ∷ xs) ys c p =
    (λ e. absurd (ground arith), IsPacked-append xs ys (ground arith) p)

pub IsPacked-replicate : (n : ℕ) → IsPacked (replicate n null_slot)
IsPacked-replicate zero = tt
IsPacked-replicate (suc n) = (λ e. (blank_slots n).0, IsPacked-replicate n)

pub IsPacked-extend :
    (k v : ℕ) (ss : List Slot) → k ≢ 0 → count_key 0 ss ≡ 0 → IsPacked (extend k v ss)
IsPacked-extend k v ss pos c = rw (extend-append k v ss) (
    IsPacked-append ss (record { key = k; value = v } ∷ spare (length ss)) c
      (λ e. absurd (pos e), IsPacked-replicate _))
