-- ===== src/Xdr/Reading.antt =====
-- What an XDR file reads (gpsee_xdrfile.c), from a map and from a stream.
use gpsee.Base.{
  ℕ, ◌+◌, ◌-◌, ◌^◌, ◌≤◌, ◌<◌, ◌≡◌, refl, sym, ap, subst, ◌∙◌, inl, inr, true, false, List, ◌++◌,
  Option, none, some, arith, ltb, leb, ◌==◌, Bool-cases, length, take, drop, length-append,
  length-drop,
}
use gpsee.Xdr.{
  decode, File, XdrFile, fread, is_encode, u64, commit_raw, past_end, load, getbytes, Pointer, null,
  address, buffer, grow, fill, raw_chunk,
}
use gpsee.Xdr.Chunk.{IsSized, IsGranted, grow_fits}
use gpsee.Base.{take_all, take_front, drop_front, length-take}

pub slice : (pre s rest : List ℕ) → take (length s) (drop (length pre) (pre ++ (s ++ rest))) ≡ s
slice pre s rest =
    rw (drop_front pre (s ++ rest)) (take_front (length s) s rest (omega arith) ∙ take_all s)

pub u64_small : (n : ℕ) → n < 2 ^ 64 → u64 n ≡ n
u64_small n lt = omega (arith, lt)

-- A decoding XDR that stands in a map of the text.
pub record IsMapped (x : XdrFile) (text : List ℕ) (pos : ℕ) : Type 0 where
  pub region : x.region ≡ text
  pub nonzero : 0 < x.map
  pub bounded : x.map + length text < 2 ^ 64
  pub end_of_map : x.mapend ≡ x.map + length text
  pub here : x.mappos ≡ x.map + pos

-- A decoding XDR that stands in a stream of the text.
pub record IsStream (x : XdrFile) (text : List ℕ) (pos : ℕ) : Type 0 where
  pub decodes : x.mode ≡ decode
  pub unmapped : x.mappos ≡ 0
  pub room : ℕ
  pub stream : x.f ≡ some (record { content = text; at = pos; room = room })
  pub sized : IsSized x

module _ (x : XdrFile) (text : List ℕ) (pos n : ℕ) (m : IsMapped x text pos) where
  pub mapped : (x.mappos == 0) ≡ false
  mapped = ground (arith, m.nonzero, m.here)

  next_in_map : pos + n ≤ length text → u64 (x.mappos + n) ≡ x.map + (pos + n)
  next_in_map le =
      u64_small (x.mappos + n) (omega (arith, m.here, m.bounded, le)) ∙ omega (arith, m.here)

  past_end-inside : pos + n ≤ length text → past_end x n ≡ false
  unfolding past_end
  past_end-inside le = rw (next_in_map le, m.end_of_map) (ground (arith, le))

  load-inside : pos + n ≤ length text → load x n ≡ some (take n (drop pos text))
  unfolding load
  load-inside le =
      let low : leb x.map x.mappos ≡ true = ground (arith, m.here) in
      let high : leb (x.mappos + n) (x.map + length x.region) ≡ true =
        ground (arith, m.here, ap length m.region, le) in
      let offset : x.mappos - x.map ≡ pos = omega (arith, m.here) in
      elim (Bool-cases (n == 0)) [
        | inr h ↦ rw (h, load, low, high, offset, m.region)
        | inl h ↦
            let nothing : 0 ≡ n = ground (arith, h) in
            rw (h) (ap (λ (k : ℕ). some (take k (drop pos text))) nothing)
      ]

  pub getbytes-IsMapped :
      pos + n ≤ length text
      → (x' : XdrFile) × (getbytes n x ≡ some (true, take n (drop pos text), x'))
        × IsMapped x' text (pos + n)
  unfolding getbytes
  getbytes-IsMapped le = (
    record x { mappos = u64 (x.mappos + n) },
    rw (mapped, past_end-inside le, load-inside le),
    record {
      region = m.region;
      nonzero = m.nonzero;
      bounded = m.bounded;
      end_of_map = m.end_of_map;
      here = next_in_map le;
    },
  )

-- The memory that the engine reads a chunk from.
unfoldable pub peek : ℕ → Pointer → XdrFile → Option (List ℕ)
peek n null x = none
peek n (address a) x = load (record x { mappos = a }) n
peek n buffer x = elim x.raw [ none ↦ none | some chunk ↦ some (take n chunk) ]

module _ (allocated : ℕ → Option (List ℕ)) where
  pub raw_chunk-IsMapped :
      (x : XdrFile) (text : List ℕ) (pos n : ℕ)
      → IsMapped x text pos
      → pos + n ≤ length text
      → (x' : XdrFile) × (raw_chunk allocated n x ≡ some (address x.mappos, x'))
        × (peek n (address x.mappos) x' ≡ some (take n (drop pos text)))
        × IsMapped x' text (pos + n)
  unfolding raw_chunk peek
  raw_chunk-IsMapped x text pos n m le = (
    record x { mappos = u64 (x.mappos + n) },
    rw (mapped x text pos n m, past_end-inside x text pos n m le),
    load-inside x text pos n m le,
    record {
      region = m.region;
      nonzero = m.nonzero;
      bounded = m.bounded;
      end_of_map = m.end_of_map;
      here = next_in_map x text pos n m le;
    },
  )

pub commit_raw-IsStream : (x : XdrFile) → x.mode ≡ decode → commit_raw x ≡ some x
unfolding commit_raw is_encode
commit_raw-IsStream x decodes = elim (Bool-cases x.rawlive) [
  | inl h ↦ simp (h, decodes)
  | inr h ↦ simp (h)
]

pub getbytes_stream :
    (n : ℕ) (x x₁ : XdrFile) (f : File)
    → x.mappos ≡ 0
    → commit_raw x ≡ some x₁
    → x₁.f ≡ some f
    → getbytes n x
      ≡ some (leb n (length (fread n f).0), (fread n f).0, record x₁ { f = some (fread n f).1 })
unfolding getbytes
getbytes_stream n x x₁ f unmapped done stream = rw (done, unmapped, getbytes, stream)

length-next :
    (text : List ℕ) (pos n : ℕ) → pos + n ≤ length text → length (take n (drop pos text)) ≡ n
length-next text pos n le = length-take n (drop pos text) (omega (arith, le, length-drop pos text))

module _ (x : XdrFile) (text : List ℕ) (pos n : ℕ) (i : IsStream x text pos)
    (le : pos + n ≤ length text) where
  abbrev here : File
  here = record { content = text; at = pos; room = i.room }

  abbrev behind : File
  behind = record { content = text; at = pos + n; room = i.room }

  fread-here : fread n here ≡ (take n (drop pos text), behind)
  unfolding fread
  fread-here = rw (length-next text pos n le)

  pub getbytes-IsStream :
      (x' : XdrFile) × (getbytes n x ≡ some (true, take n (drop pos text), x'))
      × IsStream x' text (pos + n)
  getbytes-IsStream =
      let all : leb n n ≡ true = ground arith in
      (
        record x { f = some behind },
        getbytes_stream n x x here i.unmapped (commit_raw-IsStream x i.decodes) i.stream
            ∙ rw (fread-here, length-next text pos n le, all),
        record {
          decodes = i.decodes;
          unmapped = i.unmapped;
          room = i.room;
          stream = refl;
          sized = i.sized;
        },
      )

raw_chunk_stream :
    (allocated : ℕ → Option (List ℕ)) (n : ℕ) (x x₁ y : XdrFile) (chunk s : List ℕ) (f f' : File)
    → x.mappos ≡ 0
    → x.mode ≡ decode
    → commit_raw x ≡ some x₁
    → grow allocated n x₁ ≡ (true, y)
    → y.raw ≡ some chunk
    → y.f ≡ some f
    → fread n f ≡ (s, f')
    → length s ≡ n
    → raw_chunk allocated n x
      ≡ some (
        buffer,
        record y {
          rawlen = n;
          rawlive = true;
          f = some f';
          raw = some (s ++ drop (length s) chunk);
        },
      )
unfolding raw_chunk fill is_encode
raw_chunk_stream allocated n x x₁ y chunk s f f' unmapped decodes done grown raw stream got len =
    let all : ltb (length s) n ≡ false = ground (arith, len) in
    rw (done, unmapped, raw_chunk, grown, decodes, fill, raw, stream, got, all)

pub raw_chunk-IsStream :
    (allocated : ℕ → Option (List ℕ))
    → IsGranted allocated
    → (x : XdrFile) (text : List ℕ) (pos n : ℕ) → IsStream x text pos
    → pos + n ≤ length text
    → 0 < n
    → (x' : XdrFile) × (raw_chunk allocated n x ≡ some (buffer, x'))
      × (peek n buffer x' ≡ some (take n (drop pos text)))
      × IsStream x' text (pos + n)
unfolding peek
raw_chunk-IsStream allocated granted x text pos n i le some_asked =
    let (y, chunk, grown, raw, size, large, mode, f, mappos) =
      grow_fits allocated granted n x i.sized some_asked in
    let s : List ℕ = take n (drop pos text) in
    let len = length-next text pos n le in
    let kept : List ℕ = s ++ drop (length s) chunk in
    let same : length kept ≡ length chunk =
      omega (
        arith,
        len,
        large,
        length-append s (drop (length s) chunk),
        length-drop (length s) chunk,
      ) in
    let got =
      take_front n s (drop (length s) chunk) (omega (arith, len))
      ∙ subst (λ (k : ℕ). take k s ≡ s) len (take_all s) in
    (
      record y { rawlen = n; rawlive = true; f = some (behind x text pos n i le); raw = some kept },
      raw_chunk_stream allocated n x x y chunk s (here x text pos n i le) (behind x text pos n i le)
          i.unmapped i.decodes (commit_raw-IsStream x i.decodes) grown raw (f ∙ i.stream)
          (fread-here x text pos n i le) len,
      ap (λ (t : List ℕ). some t) got,
      record {
        decodes = mode ∙ i.decodes;
        unmapped = mappos ∙ i.unmapped;
        room = i.room;
        stream = refl;
        sized = inr (kept, refl, size ∙ sym same);
      },
    )
