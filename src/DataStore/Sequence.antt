-- ===== src/DataStore/Sequence.antt =====
-- Calls of gpsee_datastores.c one behind the other, on a store without GPSEE_DS_OTM_KEYS, against a map
-- from keys to values that knows nothing of slots.
use gpsee.Base.{
  ℕ, ◌*◌, ◌≡◌, ◌≢◌, inl, inr, sym, subst, ◌∙◌, Bool, true, false, List, [], ◌∷◌, some, Option-cases,
  Bool-cases, if◌then◌else◌, length,
}
use gpsee.Platform.{Platform}
use gpsee.DataStore.{
  Store, otm_keys, has_flag, place, get, put, remove, grow, ds_create, new_size, slot_bytes,
}
use gpsee.DataStore.Slots.{clear-find}
use gpsee.DataStore.Held.{
  assign, IsClear, Holds, Holds-place, Holds-extend, Holds-clear, Holds-more, Holds-blank,
  slots-ds_create,
}

pub data Call : Type 0 where
  puts : ℕ → ℕ → Call
  removes gets : ℕ → Call

-- The JSBool of a put, the pointer of a remove or a get.
pub data Answer : Type 0 where
  done : Bool → Answer
  value : ℕ → Answer

module _ {W : Type 0} (p : Platform W) where
  unfoldable pub perform : Store → Call → W → Answer × Store × W
  perform s (puts k v) w = let (b, s₁, w₁) = put p s k v w in (done b, s₁, w₁)
  perform s (removes k) w = let (v, s₁, w₁) = remove p s k w in (value v, s₁, w₁)
  perform s (gets k) w = let (v, w₁) = get p s k w in (value v, s, w₁)

  unfoldable pub answers : List Call → Store → W → List Answer
  unfolding perform
  answers [] s w = []
  answers (c ∷ cs) s w = let (a, s₁, w₁) = perform s c w in a ∷ answers cs s₁ w₁

-- The answers are those of the map: a put that succeeds assigns and one that fails changes nothing, a
-- get gives the value, and a remove gives it and takes it out.
abbrev pub AreExplained : (ℕ → ℕ) → List Call → List Answer → Type 0
AreExplained m [] [] = Unit
AreExplained m (puts k v ∷ cs) (done b ∷ rest) =
    AreExplained (if b then assign m k v else m) cs rest
AreExplained m (removes k ∷ cs) (value n ∷ rest) = (n ≡ m k) × AreExplained (assign m k 0) cs rest
AreExplained m (gets k ∷ cs) (value n ∷ rest) = (n ≡ m k) × AreExplained m cs rest
AreExplained m _ _ = ⊥

-- No key is NULL, and behind a remove only keys are put that have not been put, or that have been
-- removed since.
abbrev pub AreInOrder : (ℕ → Bool) → Bool → List Call → Type 0
AreInOrder present removed [] = Unit
AreInOrder present removed (puts k v ∷ cs) =
    (k ≢ 0) × IsClear present removed k × AreInOrder (assign present k true) removed cs
AreInOrder present removed (removes k ∷ cs) = (k ≢ 0) × AreInOrder (assign present k false) true cs
AreInOrder present removed (gets k ∷ cs) = (k ≢ 0) × AreInOrder present removed cs

module _ {W : Type 0} (p : Platform W) where
  put-Holds :
      (present : ℕ → Bool) (removed : Bool) (m : ℕ → ℕ) (s : Store) (k v : ℕ) (w : W)
      → Holds s.slots present removed m
      → has_flag s.flags otm_keys ≡ false
      → k ≢ 0
      → IsClear present removed k
      → Holds
          (put p s k v w).1.slots
          (assign present k true)
          removed
          (if (put p s k v w).0 then assign m k v else m)
        × (has_flag (put p s k v w).1.flags otm_keys ≡ false)
  unfolding put grow
  put-Holds present removed m s k v w h plain pos free = elim (Option-cases (place k v s.slots)) [
    | inr (r, e) ↦
        rw (put, plain, e) (Holds-place present removed m s.slots h k pos v r free e, plain)
    | inl e ↦ elim (Bool-cases (p.grants (new_size (length s.slots) * slot_bytes))) [
      | inl g ↦
          rw (put, plain, e, grow, g) (Holds-extend present removed m s.slots h k pos v e, plain)
      | inr g ↦ rw (put, plain, e, grow, g) (Holds-more present removed m s.slots h k pos, plain)
    ]
  ]

  answers-AreExplained :
      (cs : List Call) (present : ℕ → Bool) (removed : Bool) (m : ℕ → ℕ) (s : Store) (w : W)
      → Holds s.slots present removed m
      → has_flag s.flags otm_keys ≡ false
      → AreInOrder present removed cs
      → AreExplained m cs (answers p cs s w)
  unfolding answers get remove
  answers-AreExplained [] present removed m s w h plain o = tt
  answers-AreExplained (puts k v ∷ cs) present removed m s w h plain (pos, free, o) =
      let (held, flags) = put-Holds present removed m s k v w h plain pos free in
      answers-AreExplained cs (assign present k true) removed _ _ _ held flags o
  answers-AreExplained (removes k ∷ cs) present removed m s w h plain (pos, o) = (
    clear-find k s.slots ∙ h.reads k pos,
    answers-AreExplained cs (assign present k false) true (assign m k 0) _ _
        (Holds-clear present removed m s.slots h k pos) plain o,
  )
  answers-AreExplained (gets k ∷ cs) present removed m s w h plain (pos, o) =
      (h.reads k pos, answers-AreExplained cs present removed m s _ h plain o)

-- The answers of a store without GPSEE_DS_OTM_KEYS that has just been made to any sequence of calls of
-- gpsee_ds_put, gpsee_ds_remove and gpsee_ds_get are those of a map that starts empty, where a put
-- that fails changes nothing: if no key is NULL and if, once a key has been removed, a put is only of
-- keys that have not been put or have been removed since.
pub ds_create-AreExplained :
    {W : Type 0} (p : Platform W) (cs : List Call) (hint monitor flags : ℕ) (s : Store) (w : W)
    → ds_create p hint ≡ some s
    → has_flag flags otm_keys ≡ false
    → AreInOrder (λ k. false) false cs
    → AreExplained (λ k. 0) cs (answers p cs (record s { monitor = monitor; flags = flags }) w)
ds_create-AreExplained p cs hint monitor flags s w made plain o =
    answers-AreExplained p cs (λ k. false) false (λ k. 0) _ w
      (subst (λ ss. Holds ss (λ k. false) false (λ k. 0)) (sym (slots-ds_create p hint s made))
        (Holds-blank hint))
      plain o
