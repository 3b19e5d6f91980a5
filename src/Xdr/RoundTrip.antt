-- ===== src/Xdr/RoundTrip.antt =====
-- What a session of an encoding XDR file writes, a session of a decoding one reads (gpsee_xdrfile.c).
use mathlib.Core.Path.{subst₂}
use mathlib.Core.List.{append_assoc}
use gpsee.Base.{
  ℕ, ◌+◌, ◌^◌, ◌≤◌, ◌<◌, ◌≡◌, refl, sym, ◌⊎◌, inl, inr, Bool, true, false, List, [], ◌++◌, Option,
  none, some, arith, ◌==◌, if◌then◌else◌, Bool-cases, length, take, drop, length-append,
}
use gpsee.Xdr.{
  Mode, encode, decode, File, XdrFile, word, get32, getbytes, Pointer, address, buffer, raw_chunk,
  map_file, open_file, new_file, map_failed, is_encode, u64,
}
use gpsee.Xdr.Chunk.{IsGranted}
use gpsee.Xdr.Stream.{ended, value-word}
use gpsee.Xdr.Writing.{IsWriter}
use gpsee.Xdr.Reading.{
  IsMapped, IsStream, slice, u64_small, peek, getbytes-IsMapped, getbytes-IsStream,
  raw_chunk-IsMapped, raw_chunk-IsStream,
}
use gpsee.Xdr.Session.{
  Item, payload, payloads, IsItem, number_fits, bytes_fit, chunk_fits, AllItems, nil, cons,
  write_session, write_session-IsWriter, read_item, read_items,
}

inside : (pre s rest : List ℕ) → length pre + length s ≤ length (pre ++ (s ++ rest))
inside pre s rest = omega (arith, length-append pre (s ++ rest), length-append s rest)

abbrev IsReader : XdrFile → List ℕ → ℕ → Type 0
IsReader x text pos = IsMapped x text pos ⊎ IsStream x text pos

getbytes-IsReader :
    (n : ℕ) (x : XdrFile) (text : List ℕ) (pos : ℕ)
    → IsReader x text pos
    → pos + n ≤ length text
    → (x' : XdrFile) × (getbytes n x ≡ some (true, take n (drop pos text), x'))
      × IsReader x' text (pos + n)
getbytes-IsReader n x text pos (inl m) le =
    let (x', eq, m') = getbytes-IsMapped x text pos n m le in (x', eq, inl m')
getbytes-IsReader n x text pos (inr i) le =
    let (x', eq, i') = getbytes-IsStream x text pos n i le in (x', eq, inr i')

module _ (allocated : ℕ → Option (List ℕ)) (granted : IsGranted allocated) where
  raw_chunk-IsReader :
      (n : ℕ) (x : XdrFile) (text : List ℕ) (pos : ℕ)
      → IsReader x text pos
      → pos + n ≤ length text
      → 0 < n
      → (p : Pointer) × (x' : XdrFile) × (raw_chunk allocated n x ≡ some (p, x'))
        × (peek n p x' ≡ some (take n (drop pos text)))
        × IsReader x' text (pos + n)
  raw_chunk-IsReader n x text pos (inl m) le some_asked =
      let (x', eq, got, m') = raw_chunk-IsMapped allocated x text pos n m le in
      (address x.mappos, x', eq, got, inl m')
  raw_chunk-IsReader n x text pos (inr i) le some_asked =
      let (x', eq, got, i') = raw_chunk-IsStream allocated granted x text pos n i le some_asked in
      (buffer, x', eq, got, inr i')

  read_item-IsReader :
      (i : Item) (x : XdrFile) (pre rest : List ℕ)
      → IsItem i
      → IsReader x (pre ++ (payload i ++ rest)) (length pre)
      → (x' : XdrFile) × (read_item allocated i x ≡ some (some i, x'))
        × IsReader x' (pre ++ (payload i ++ rest)) (length pre + length (payload i))
  unfolding read_item payload get32 word
  read_item-IsReader i x pre rest (number_fits v lt) r =
      let (x', eq, r') =
        getbytes-IsReader 4 x (pre ++ (word v ++ rest)) (length pre) r (inside pre (word v) rest) in
      (x', rw (eq, slice pre (word v) rest, value-word v lt), r')
  read_item-IsReader i x pre rest (bytes_fit s lt) r =
      let (x', eq, r') =
        getbytes-IsReader (length s) x (pre ++ (s ++ rest)) (length pre) r (inside pre s rest) in
      (x', rw (eq, slice pre s rest), r')
  read_item-IsReader i x pre rest (chunk_fits s some_asked lt) r =
      let (p, x', eq, got, r') =
        raw_chunk-IsReader (length s) x (pre ++ (s ++ rest)) (length pre) r (inside pre s rest)
          some_asked in
      (x', rw (eq, got, slice pre s rest), r')

  read_items-IsReader :
      (items : List Item) (x : XdrFile) (pre : List ℕ)
      → AllItems items
      → IsReader x (pre ++ payloads items) (length pre)
      → (x' : XdrFile) × (read_items allocated items x ≡ some (items, x'))
  unfolding read_items payloads
  read_items-IsReader items x pre nil r = (x, refl)
  read_items-IsReader _ x pre (cons i items good all) r =
      let (x₁, done, r₁) = read_item-IsReader i x pre (payloads items) good r in
      let moved =
        subst₂ (λ (t : List ℕ) (n : ℕ). IsReader x₁ t n)
          (sym (append_assoc pre (payload i) (payloads items)))
          (sym (length-append pre (payload i))) r₁ in
      let (x₂, rest) = read_items-IsReader items x₁ (pre ++ payload i) all moved in
      (x₂, rw (done, rest))

-- What fopen(3) gives for a file in the mode "r".
abbrev pub rewound : File → File
rewound f = record f { at = 0 }

module _ (uses_mmap : Bool) (fstat : File → Bool) (mmap : File → ℕ)
    (allocated : ℕ → Option (List ℕ)) where
  -- A session on a new file that fopen(3) has given, from `gpsee_XDRNewFile` to `finalize`.
  unfoldable pub write_file : List Item → File → Option (Bool × Option File)
  write_file items f = elim (new_file uses_mmap fstat mmap encode none (λ m. some f) true).xdr [
    | none ↦ none
    | some x ↦ write_session allocated items x
  ]

  unfoldable pub read_file : List Item → File → Option (List Item × XdrFile)
  read_file items f = elim (new_file uses_mmap fstat mmap decode none (λ m. some f) true).xdr [
    | none ↦ none
    | some x ↦ read_items allocated items x
  ]

-- mmap(2) gives a place that is not NULL and ends before the end of memory, for a file that is not empty
-- and has less than 2 ^ 32 bytes.
abbrev pub IsPlace : (File → ℕ) → Type 0
IsPlace mmap =
    (f : File)
    → 0 < length f.content
    → length f.content < 2 ^ 32
    → (0 < mmap f) × (mmap f + length f.content < 2 ^ 64)

-- The XDR that `gpsee_XDRNewFile` makes, without a map and with one.
abbrev pub fresh : Mode → File → XdrFile
fresh mode f = record {
  mode = mode;
  f = some f;
  own_file = true;
  region = [];
  map = 0;
  mapend = 0;
  maplen = 0;
  mappos = 0;
  raw = none;
  rawlen = 0;
  rawsize = 0;
  rawlive = false;
}

abbrev fresh_map : File → ℕ → XdrFile
fresh_map f at = record (fresh decode f) {
  region = if at == map_failed then [] else f.content;
  maplen = length f.content;
  map = at;
  mappos = at;
  mapend = u64 (at + length f.content);
}

fresh-IsWriter : (room : ℕ) → IsWriter (fresh encode (ended [] room)) [] room
fresh-IsWriter room = record {
  encodes = refl;
  unmapped = refl;
  committed = [];
  stream = refl;
  split = refl;
  fits = omega arith;
  sized = inl (refl, refl, refl);
}

fresh-IsStream :
    (text : List ℕ) (room : ℕ) → IsStream (fresh decode (rewound (ended text room))) text 0
fresh-IsStream text room = record {
  decodes = refl;
  unmapped = refl;
  room = room;
  stream = refl;
  sized = inl (refl, refl);
}

fresh_map-IsMapped :
    (text : List ℕ) (room at : ℕ)
    → 0 < length text
    → 0 < at
    → at + length text < 2 ^ 64
    → IsMapped (fresh_map (rewound (ended text room)) at) text 0
fresh_map-IsMapped text room at some_text nonzero bounded =
    let mapped : (at == map_failed) ≡ false = ground (arith, bounded, some_text) in
    record {
      region = rw (mapped);
      nonzero = nonzero;
      bounded = bounded;
      end_of_map = u64_small (at + length text) bounded;
      here = omega arith;
    }

module _ (uses_mmap : Bool) (fstat : File → Bool) (mmap : File → ℕ)
    (allocated : ℕ → Option (List ℕ)) (granted : IsGranted allocated) where
  write_file-ended :
      (items : List Item) (room : ℕ)
      → AllItems items
      → length (payloads items) ≤ room
      → write_file uses_mmap fstat mmap allocated items (ended [] room)
        ≡ some (true, some (ended (payloads items) room))
  unfolding write_file new_file open_file map_file is_encode
  write_file-ended items room all wide =
      let done =
        write_session-IsWriter allocated granted items (fresh encode (ended [] room)) room all
          (fresh-IsWriter room) wide in
      elim (Bool-cases uses_mmap) [ inl h ↦ rw (h) done | inr h ↦ rw (h) done ]

  read_file-IsReader :
      (items : List Item) (room : ℕ)
      → IsPlace mmap
      → AllItems items
      → 0 < length (payloads items)
      → length (payloads items) < 2 ^ 32
      → (x : XdrFile) × (read_file uses_mmap fstat mmap allocated items
            (rewound (ended (payloads items) room))
          ≡ some (items, x))
  unfolding read_file new_file open_file map_file is_encode
  read_file-IsReader items room place all some_text short =
      let text = payloads items in
      let f = rewound (ended text room) in
      let (nonzero, bounded) = place f some_text short in
      let (x, by_stream) =
        read_items-IsReader allocated granted items (fresh decode f) [] all
          (inr (fresh-IsStream text room)) in
      let (y, by_map) =
        read_items-IsReader allocated granted items (fresh_map f (mmap f)) [] all
          (inl (fresh_map-IsMapped text room (mmap f) some_text nonzero bounded)) in
      elim (Bool-cases uses_mmap) [
        | inr h ↦ (x, rw (h) by_stream)
        | inl h ↦ elim (Bool-cases (fstat f)) [
          | inr g ↦ (x, rw (h, g) by_stream)
          | inl g ↦ (y, rw (h, g) by_map)
        ]
      ]

  -- Numbers, bytes and raw chunks that a session writes to a new file with room for them stand in the
  -- file one behind the other, and a session that asks the file for items of the same kinds and lengths,
  -- by a map or by the stream, gets them back; JS_malloc finds memory, mmap(2) succeeds, and the file is
  -- not empty and shorter than 2 ^ 32 bytes.
  pub read_file-write_file :
      (items : List Item) (room : ℕ)
      → IsPlace mmap
      → AllItems items
      → 0 < length (payloads items)
      → length (payloads items) < 2 ^ 32
      → length (payloads items) ≤ room
      → (f : File) × (write_file uses_mmap fstat mmap allocated items (ended [] room)
          ≡ some (true, some f))
        × (f.content ≡ payloads items)
        × (x : XdrFile) × (read_file uses_mmap fstat mmap allocated items (rewound f)
            ≡ some (items, x))
  read_file-write_file items room place all some_text short wide =
      let (x, done) = read_file-IsReader items room place all some_text short in
      (ended (payloads items) room, write_file-ended items room all wide, refl, x, done)
