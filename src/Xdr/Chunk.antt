-- ===== src/Xdr/Chunk.antt =====
-- The buffer for raw chunks of an XDR file (gpsee_xdrfile.c).
use gpsee.Base.{
  ℕ, ◌≤◌, ◌<◌, ◌≡◌, refl, sym, ◌⊎◌, inl, inr, true, List, Option, none, some, arith, ltb,
  Bool-cases, length,
}
use gpsee.Xdr.{XdrFile, grow}

-- `rawsize` is the size of the buffer.
abbrev pub IsSized : XdrFile → Type 0
IsSized x =
    ((x.raw ≡ none) × (x.rawsize ≡ 0))
    ⊎ ((chunk : List ℕ) × (x.raw ≡ some chunk) × (x.rawsize ≡ length chunk))

-- JS_malloc finds memory.
abbrev pub IsGranted : (ℕ → Option (List ℕ)) → Type 0
IsGranted allocated = (n : ℕ) → (chunk : List ℕ) × (allocated n ≡ some chunk) × (length chunk ≡ n)

module _ (allocated : ℕ → Option (List ℕ)) (granted : IsGranted allocated) where
  pub grow_fits :
      (n : ℕ) (x : XdrFile)
      → IsSized x
      → 0 < n
      → (y : XdrFile) × (chunk : List ℕ) × (grow allocated n x ≡ (true, y))
        × (y.raw ≡ some chunk)
        × (y.rawsize ≡ length chunk)
        × (n ≤ length chunk)
        × (y.mode ≡ x.mode)
        × (y.f ≡ x.f)
        × (y.mappos ≡ x.mappos)
  unfolding grow
  grow_fits n x sized some_asked = elim (Bool-cases (ltb x.rawsize n)) [
    | inl small ↦
        let (chunk, given, len) = granted n in
        (
          record x { raw = some chunk; rawsize = n },
          chunk,
          simp (small, given),
          refl,
          sym len,
          omega (arith, len),
          refl,
          refl,
          refl,
        )
    | inr large ↦ elim sized [
      | inl (raw, size) ↦ absurd (ground (arith, large, size, some_asked))
      | inr (chunk, raw, size) ↦
          (x, chunk, simp (large), raw, size, ground (arith, large, size), refl, refl, refl)
    ]
  ]
