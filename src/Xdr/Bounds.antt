-- ===== src/Xdr/Bounds.antt =====
-- Where an XDR file cannot do as it is asked (gpsee_xdrfile.c): the end of the file, a seek before its
-- start, a map that failed, a medium that is full.
use gpsee.Base.{
  ℕ, zero, suc, ◌+◌, ◌-◌, ◌^◌, ◌≤◌, ◌<◌, ◌≡◌, refl, ap, ◌∙◌, ◌⊎◌, inl, inr, Bool, true, false, List,
  [], ◌∷◌, none, some, arith, ltb, leb, ◌==◌, Bool-cases, length, take, drop, length-drop,
}
use gpsee.Xdr.{
  decode, File, XdrFile, seek_set, fread, extend, is_encode, u64, map_failed, map_file, open_file,
  new_file, past_end, load, getbytes, seek_map, seek,
}
use gpsee.Xdr.Reading.{
  IsMapped, IsStream, getbytes-IsMapped, getbytes-IsStream, getbytes_stream, commit_raw-IsStream,
  mapped, u64_small,
}

-- Past the end a map refuses and stays where it is, and a stream refuses and moves to the end.
getbytes_past-IsMapped :
    (x : XdrFile) (text : List ℕ) (pos n : ℕ)
    → IsMapped x text pos
    → pos ≤ length text
    → x.map + length text + n < 2 ^ 64
    → length text < pos + n
    → getbytes n x ≡ some (false, [], x)
unfolding getbytes past_end
getbytes_past-IsMapped x text pos n m inside bounded past =
    let next = u64_small (x.mappos + n) (omega (arith, m.here, bounded, inside)) in
    let over : ltb x.mapend (x.mappos + n) ≡ true = ground (arith, m.end_of_map, m.here, past) in
    rw (mapped x text pos n m, next, over)

take_whole : (n : ℕ) (s : List ℕ) → length s ≤ n → take n s ≡ s
take_whole zero [] le = refl
take_whole zero (c ∷ s) le = absurd (omega (arith, le))
take_whole (suc n) [] le = refl
take_whole (suc n) (c ∷ s) le = ap (λ (t : List ℕ). c ∷ t) (take_whole n s (omega (arith, le)))

getbytes_past-IsStream :
    (x : XdrFile) (text : List ℕ) (pos n : ℕ)
    → IsStream x text pos
    → pos ≤ length text
    → length text < pos + n
    → (x' : XdrFile) × (getbytes n x ≡ some (false, drop pos text, x'))
      × IsStream x' text (length text)
unfolding fread
getbytes_past-IsStream x text pos n i inside past =
    let here : File = record { content = text; at = pos; room = i.room } in
    let left = length-drop pos text in
    let s : take n (drop pos text) ≡ drop pos text =
      take_whole n (drop pos text) (omega (arith, left, past)) in
    let end : pos + length (drop pos text) ≡ length text = omega (arith, left, inside) in
    let short : leb n (length (drop pos text)) ≡ false = ground (arith, left, past, inside) in
    (
      record x { f = some (record here { at = length text }) },
      getbytes_stream n x x here i.unmapped (commit_raw-IsStream x i.decodes) i.stream
          ∙ rw (s, end, short),
      record {
        decodes = i.decodes;
        unmapped = i.unmapped;
        room = i.room;
        stream = refl;
        sized = i.sized;
      },
    )

-- At the same place of the same text, a map and a stream answer alike, whatever is asked: both give the
-- next bytes and stand behind them, or there are not so many and both refuse. Then the map stays where
-- it is and the stream moves to the end. The bytes asked for do not wrap around the end of memory.
pub getbytes_alike :
    (x y : XdrFile) (text : List ℕ) (pos n : ℕ)
    → IsMapped x text pos
    → IsStream y text pos
    → pos ≤ length text
    → x.map + length text + n < 2 ^ 64
    → ((x' : XdrFile) × (y' : XdrFile) × (getbytes n x ≡ some (true, take n (drop pos text), x'))
        × (getbytes n y ≡ some (true, take n (drop pos text), y'))
        × IsMapped x' text (pos + n)
        × IsStream y' text (pos + n))
      ⊎ ((length text < pos + n)
          × (y' : XdrFile) × (getbytes n x ≡ some (false, [], x))
          × (getbytes n y ≡ some (false, drop pos text, y'))
          × IsStream y' text (length text))
getbytes_alike x y text pos n m i inside bounded = elim (Bool-cases (ltb (length text) (pos + n))) [
  | inr h ↦
      let le : pos + n ≤ length text = ground (arith, h) in
      let (x', xs, m') = getbytes-IsMapped x text pos n m le in
      let (y', ys, i') = getbytes-IsStream y text pos n i le in inl (x', y', xs, ys, m', i')
  | inl h ↦
      let past : length text < pos + n = ground (arith, h) in
      let (y', ys, i') = getbytes_past-IsStream y text pos n i inside past in
      inr (past, y', getbytes_past-IsMapped x text pos n m inside bounded past, ys, i')
]

load_below : (x : XdrFile) (n : ℕ) → x.mappos < x.map → 0 < n → load x n ≡ none
unfolding load
load_below x n below some_asked = ground (arith, below, some_asked)

-- A seek to a negative offset answers false but has moved to before the map. The next bytes are taken
-- to be before its end, and reading them is an access to memory that is not in the map.
pub getbytes-seek :
    (x : XdrFile) (text : List ℕ) (pos k n : ℕ)
    → IsMapped x text pos
    → x.mode ≡ decode
    → 0 < k
    → k ≤ 2 ^ 31
    → k < x.map
    → 0 < n
    → n ≤ length text
    → (x' : XdrFile) × (seek (2 ^ 32 - k) seek_set x ≡ some (false, x')) × (getbytes n x' ≡ none)
unfolding getbytes seek seek_map past_end extend
getbytes-seek x text pos k n m decodes negative wide above some_asked fits =
    let sign : ltb (2 ^ 32 - k) (2 ^ 31) ≡ false = ground (arith, wide, negative) in
    let there : u64 (x.map + (2 ^ 64 - 2 ^ 32 + (2 ^ 32 - k))) ≡ x.map - k =
      omega (arith, m.bounded, negative, wide, above) in
    let below : ltb (x.map - k) x.map ≡ true = ground (arith, negative, above) in
    let before_end : ltb x.mapend (x.map - k) ≡ false = ground (arith, m.end_of_map) in
    let y = record x { mappos = x.map - k } in
    let set_there : (x.map - k == 0) ≡ false = ground (arith, above) in
    let next = u64_small (x.map - k + n) (omega (arith, m.bounded, fits)) in
    let not_past : ltb x.mapend (x.map - k + n) ≡ false =
      ground (arith, m.end_of_map, fits, above, negative) in
    (
      y,
      rw (
        commit_raw-IsStream x decodes,
        mapped x text pos n m,
        seek,
        sign,
        there,
        below,
        before_end,
      ),
      rw (set_there, next, not_past, load_below y n (omega (arith, negative, above)) some_asked),
    )

load_nothing : (x : XdrFile) (n : ℕ) → x.region ≡ [] → 0 < n → load x n ≡ none
unfolding load
load_nothing x n region some_asked =
    let empty : length x.region ≡ 0 = ap length region in ground (arith, empty, some_asked)

-- When fstat(2) succeeds and mmap(2) does not, the new XDR takes MAP_FAILED for its map, and bytes that
-- the file has, or any bytes where it has none, are read from there: an access to memory that is not.
pub getbytes-new_file :
    (fstat : File → Bool) (mmap : File → ℕ) (f : File) (n : ℕ)
    → fstat f ≡ true
    → mmap f ≡ map_failed
    → 0 < n
    → n < 2 ^ 63
    → length f.content < 2 ^ 63
    → (n ≤ length f.content) ⊎ (length f.content ≡ 0)
    → (x : XdrFile) × ((new_file true fstat mmap decode none (λ m. some f) true).xdr ≡ some x)
      × (getbytes n x ≡ none)
unfolding new_file open_file map_file is_encode getbytes past_end
getbytes-new_file fstat mmap f n found failed some_asked wide bounded fits =
    let x : XdrFile = record {
      mode = decode;
      f = some f;
      own_file = true;
      region = [];
      map = map_failed;
      mapend = u64 (map_failed + length f.content);
      maplen = length f.content;
      mappos = map_failed;
      raw = none;
      rawlen = 0;
      rawsize = 0;
      rawlive = false;
    } in
    let next : u64 (map_failed + n) ≡ n - 1 = omega (arith, some_asked, wide) in
    let not_past : ltb (u64 (map_failed + length f.content)) (n - 1) ≡ false =
      ground (arith, some_asked, wide, bounded, fits) in
    (x, rw (found, failed), rw (next, not_past, load_nothing x n refl some_asked))
