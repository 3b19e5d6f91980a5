-- ===== src/Xdr/Writing.antt =====
-- What an XDR file writes (gpsee_xdrfile.c): numbers, bytes and raw chunks stand in the file in the
-- order of the calls.
use mathlib.Core.List.{append-nil}
use gpsee.Base.{
  ℕ, ◌+◌, ◌^◌, ◌≤◌, ◌<◌, ◌≡◌, refl, sym, ap, ◌∙◌, ◌⊎◌, inl, inr, Bool, true, false, List, [], ◌++◌,
  Option, none, some, arith, ltb, leb, if◌then◌else◌, Bool-cases, length, take, drop, length-append,
  length-drop,
}
use gpsee.Util.{◌>>=◌}
use gpsee.Xdr.{
  encode, File, XdrFile, fwrite, extend, is_encode, commit_raw, setbytes, null, address, buffer,
  grow, raw_chunk,
}
use gpsee.Xdr.Chunk.{IsSized, IsGranted, grow_fits}
use gpsee.Xdr.Stream.{ended, fwrite-ended, extend_small}
use gpsee.Base.{take_all, take_front}

-- The bytes of the raw chunk that are to be written.
abbrev pub pending : XdrFile → List ℕ
pending x =
    if x.rawlive then (elim x.raw [ none ↦ [] | some chunk ↦ take (extend x.rawlen) chunk ]) else []

-- An encoding XDR whose calls have written the text, with the buffer that it has for chunks.
pub record IsWriter (x : XdrFile) (text : List ℕ) (room : ℕ) : Type 0 where
  pub encodes : x.mode ≡ encode
  pub unmapped : x.mappos ≡ 0
  pub committed : List ℕ
  pub stream : x.f ≡ some (ended committed room)
  pub split : committed ++ pending x ≡ text
  pub fits : length text ≤ room
  pub sized :
      ((x.raw ≡ none) × (x.rawsize ≡ 0) × (x.rawlive ≡ false))
      ⊎ ((chunk : List ℕ) × (x.raw ≡ some chunk)
          × (x.rawsize ≡ length chunk)
          × ((x.rawlive ≡ false) ⊎ (extend x.rawlen ≤ length chunk)))

-- The same between a commit and the next chunk.
pub record IsIdle (x : XdrFile) (text : List ℕ) (room : ℕ) : Type 0 where
  pub writer : IsWriter x text room
  pub idle : x.rawlive ≡ false
  pub all : x.f ≡ some (ended text room)

IsIdle-of_committed :
    (x : XdrFile) (text : List ℕ) (room : ℕ)
    → IsWriter x text room
    → x.rawlive ≡ false
    → IsIdle x text room
IsIdle-of_committed x text room w idle =
    let none_left : pending x ≡ [] = rw (idle) in
    let whole : w.committed ≡ text =
      sym (append-nil w.committed)
      ∙ ap (λ (t : List ℕ). w.committed ++ t) (sym none_left)
      ∙ w.split in
    record {
      writer = w;
      idle = idle;
      all = w.stream ∙ ap (λ (t : List ℕ). some (ended t room)) whole;
    }

commit_live :
    (x : XdrFile) (text : List ℕ) (room : ℕ)
    → IsWriter x text room
    → x.rawlive ≡ true
    → (x' : XdrFile) × (commit_raw x ≡ some x') × IsIdle x' text room
unfolding commit_raw is_encode
commit_live x text room w live = elim w.sized [
  | inl (raw, size, dead) ↦ absurd (cc)
  | inr (chunk, raw, size, spent) ↦ elim spent [
    | inl dead ↦ absurd (cc)
    | inr in_chunk ↦
        let n = extend x.rawlen in
        let s : List ℕ = take n chunk in
        let inside : ltb (length chunk) n ≡ false = ground (arith, in_chunk) in
        let chunk_pending : pending x ≡ s = rw (live, raw) in
        let whole : w.committed ++ s ≡ text =
          ap (λ (t : List ℕ). w.committed ++ t) (sym chunk_pending) ∙ w.split in
        let wide : length w.committed + length s ≤ room =
          omega (arith, w.fits, ap length whole, length-append w.committed s) in
        let wrote = fwrite-ended w.committed s room wide in
        (
          record x { f = some (ended text room); rawlive = false },
          simp (live, w.encodes, raw, w.stream, inside, wrote, whole),
          record {
            writer = record {
              encodes = w.encodes;
              unmapped = w.unmapped;
              committed = text;
              stream = refl;
              split = append-nil text;
              fits = w.fits;
              sized = inr (chunk, raw, size, inl refl);
            };
            idle = refl;
            all = refl;
          },
        )
  ]
]

pub commit_raw-IsIdle :
    (x : XdrFile) (text : List ℕ) (room : ℕ)
    → IsWriter x text room
    → (x' : XdrFile) × (commit_raw x ≡ some x') × IsIdle x' text room
unfolding commit_raw
commit_raw-IsIdle x text room w = elim (Bool-cases x.rawlive) [
  | inl live ↦ commit_live x text room w live
  | inr idle ↦ (x, rw (idle), IsIdle-of_committed x text room w idle)
]

setbytes_stream :
    (s : List ℕ) (x x₁ : XdrFile) (f : File)
    → x.mappos ≡ 0
    → commit_raw x ≡ some x₁
    → x₁.f ≡ some f
    → setbytes s x ≡ some (leb (length s) (fwrite s f).0, record x₁ { f = some (fwrite s f).1 })
unfolding setbytes
setbytes_stream s x x₁ f unmapped done stream = rw (done, unmapped, setbytes, stream)

pub setbytes-IsWriter :
    (s : List ℕ) (x : XdrFile) (text : List ℕ) (room : ℕ)
    → IsWriter x text room
    → length text + length s ≤ room
    → (x' : XdrFile) × (setbytes s x ≡ some (true, x')) × IsWriter x' (text ++ s) room
setbytes-IsWriter s x text room w wide =
    let (x₁, done, i) = commit_raw-IsIdle x text room w in
    let wrote = fwrite-ended text s room wide in
    let all_fit : leb (length s) (length s) ≡ true = ground arith in
    (
      record x₁ { f = some (ended (text ++ s) room) },
      setbytes_stream s x x₁ (ended text room) w.unmapped done i.all ∙ rw (wrote, all_fit),
      record {
        encodes = i.writer.encodes;
        unmapped = i.writer.unmapped;
        committed = text ++ s;
        stream = refl;
        split = ap (λ (t : List ℕ). (text ++ s) ++ t) (rw (i.idle)) ∙ append-nil (text ++ s);
        fits = omega (arith, wide, length-append text s);
        sized = i.writer.sized;
      },
    )

-- What the engine does with the memory of a chunk.
unfoldable pub store : List ℕ → XdrFile → XdrFile
store s x = record x {
  raw = elim x.raw [ none ↦ none | some chunk ↦ some (s ++ drop (length s) chunk) ];
}

module _ (allocated : ℕ → Option (List ℕ)) where
  -- A chunk that the engine asks for and fills.
  unfoldable pub write_chunk : List ℕ → XdrFile → Option (Bool × XdrFile)
  write_chunk s x = raw_chunk allocated (length s) x >>= λ (p, x'). elim p [
    | null ↦ some (false, x')
    | address a ↦ none
    | buffer ↦ some (true, store s x')
  ]

pub write_chunk_stream :
    (allocated : ℕ → Option (List ℕ)) (s : List ℕ) (x x₁ y : XdrFile) (chunk : List ℕ)
    → x.mappos ≡ 0
    → x.mode ≡ encode
    → commit_raw x ≡ some x₁
    → grow allocated (length s) x₁ ≡ (true, y)
    → y.raw ≡ some chunk
    → write_chunk allocated s x
      ≡ some (
        true,
        record y { rawlen = length s; rawlive = true; raw = some (s ++ drop (length s) chunk) },
      )
unfolding raw_chunk write_chunk store is_encode
write_chunk_stream allocated s x x₁ y chunk unmapped encodes done grown raw =
    rw (done, unmapped, raw_chunk, grown, encodes, raw)

IsWriter-IsSized : (x : XdrFile) (text : List ℕ) (room : ℕ) → IsWriter x text room → IsSized x
IsWriter-IsSized x text room w = elim w.sized [
  | inl (raw, size, dead) ↦ inl (raw, size)
  | inr (chunk, raw, size, spent) ↦ inr (chunk, raw, size)
]

module _ (allocated : ℕ → Option (List ℕ)) (granted : IsGranted allocated) where
  pub write_chunk-IsWriter :
      (s : List ℕ) (x : XdrFile) (text : List ℕ) (room : ℕ)
      → IsWriter x text room
      → length text + length s ≤ room
      → 0 < length s
      → length s < 2 ^ 31
      → (x' : XdrFile) × (write_chunk allocated s x ≡ some (true, x'))
        × IsWriter x' (text ++ s) room
  write_chunk-IsWriter s x text room w wide some_asked small =
      let (x₁, done, i) = commit_raw-IsIdle x text room w in
      let (y, chunk, grown, raw, size, le, mode, f, mappos) =
        grow_fits allocated granted (length s) x₁ (IsWriter-IsSized x₁ text room i.writer)
          some_asked in
      let kept : List ℕ = s ++ drop (length s) chunk in
      let len : length kept ≡ length chunk =
        omega (arith, le, length-append s (drop (length s) chunk), length-drop (length s) chunk) in
      (
        record y { rawlen = length s; rawlive = true; raw = some kept },
        write_chunk_stream allocated s x x₁ y chunk w.unmapped w.encodes done grown raw,
        record {
          encodes = mode ∙ i.writer.encodes;
          unmapped = mappos ∙ i.writer.unmapped;
          committed = text;
          stream = f ∙ i.all;
          split =
              ap (λ (t : List ℕ). text ++ t)
                (rw (extend_small (length s) small)
                  (take_front (length s) s (drop (length s) chunk) (omega arith) ∙ take_all s));
          fits = omega (arith, wide, length-append text s);
          sized = inr (
            kept,
            refl,
            size ∙ sym len,
            inr (rw (extend_small (length s) small) (omega (arith, le, len))),
          );
        },
      )
