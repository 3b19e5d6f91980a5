-- ===== src/Xdr/Full.antt =====
-- A raw chunk that the medium has no room for (gpsee_xdrfile.c).
use gpsee.Base.{
  ℕ, zero, suc, ◌+◌, ◌-◌, ◌^◌, ◌≤◌, ◌<◌, min, ◌≡◌, refl, ◌∙◌, inl, inr, Bool, true, false, List, [],
  ◌∷◌, ◌++◌, Option, some, arith, ltb, ◌==◌, Bool-cases, length, take, drop, length-append,
  length-drop,
}
use gpsee.Util.{◌>>=◌}
use gpsee.Xdr.{
  encode, File, XdrFile, fwrite, overwritten, extend, is_encode, commit_raw, finalize, map_file,
  open_file, new_file,
}
use gpsee.Xdr.Chunk.{IsGranted, grow_fits}
use gpsee.Xdr.Stream.{ended, extend_small}
use gpsee.Base.{take_all, take_front, length-take}
use gpsee.Xdr.Writing.{write_chunk, write_chunk_stream}
use gpsee.Xdr.Session.{chunk, write_item, write_items, write_session}
use gpsee.Xdr.RoundTrip.{write_file, fresh}

length-fwrite :
    (s : List ℕ) (room : ℕ) → room ≤ length s → length (fwrite s (ended [] room)).1.content ≡ room
unfolding fwrite overwritten
length-fwrite s zero le = let nothing : min (length s) (0 - 0) ≡ 0 = omega arith in rw (nothing)
length-fwrite s (suc room) le =
    let empty : List ℕ = [] in
    let n : min (length s) (suc room - 0) ≡ suc room = omega (arith, le) in
    let some_fit : (suc room == 0) ≡ false = ground arith in
    rw (n, some_fit)
      (length-append (take (suc room) s) (drop (0 + length (take (suc room) s)) [])
        ∙ omega (
          arith,
          length-take (suc room) s le,
          length-drop (0 + length (take (suc room) s)) (empty),
        ))

abbrev end_session : XdrFile → Option (Bool × Option File)
end_session x = finalize x >>= λ (f, closed, x'). some (true, f)

finalize_chunk :
    (x : XdrFile) (s kept : List ℕ) (f : File)
    → x.mode ≡ encode
    → x.f ≡ some f
    → x.rawlive ≡ true
    → x.raw ≡ some kept
    → extend x.rawlen ≤ length kept
    → take (extend x.rawlen) kept ≡ s
    → end_session x ≡ some (true, some (fwrite s f).1)
unfolding finalize commit_raw is_encode
finalize_chunk x s kept f encodes stream live raw fits bytes_of =
    let inside : ltb (length kept) (extend x.rawlen) ≡ false = ground (arith, fits) in
    simp (live, encodes, raw, stream, inside, bytes_of)

-- A raw chunk that is larger than what the medium has room for is cut off at `finalize`, and the session
-- answers true all the same; JS_malloc finds memory.
pub write_file-short :
    (uses_mmap : Bool) (fstat : File → Bool) (mmap : File → ℕ) (allocated : ℕ → Option (List ℕ))
    → IsGranted allocated
    → (s : List ℕ) (room : ℕ) → length s < 2 ^ 31
    → room < length s
    → (f : File) × (write_file uses_mmap fstat mmap allocated (chunk s ∷ []) (ended [] room)
        ≡ some (true, some f))
      × (length f.content ≡ room)
unfolding write_file new_file open_file map_file is_encode write_session write_items write_item
    commit_raw
write_file-short uses_mmap fstat mmap allocated granted s room small short =
    let x = fresh encode (ended [] room) in
    let (y, block, grown, raw, size, large, mode, f, mappos) =
      grow_fits allocated granted (length s) x (inl (refl, refl)) (omega (arith, short)) in
    let kept : List ℕ = s ++ drop (length s) block in
    let z = record y { rawlen = length s; rawlive = true; raw = some kept } in
    let wrote : write_chunk allocated s x ≡ some (true, z) =
      write_chunk_stream allocated s x x y block refl refl refl grown raw in
    let asked = extend_small (length s) small in
    let bytes_of : take (extend (length s)) kept ≡ s =
      rw (asked) (take_front (length s) s (drop (length s) block) (omega arith) ∙ take_all s) in
    let done =
      finalize_chunk z s kept (ended [] room) mode f refl refl
        (rw (asked) (omega (arith, length-append s (drop (length s) block)))) bytes_of in
    (
      (fwrite s (ended [] room)).1,
      elim (Bool-cases uses_mmap) [ inl h ↦ rw (h, wrote) done | inr h ↦ rw (h, wrote) done ],
      length-fwrite s room (omega (arith, short)),
    )
