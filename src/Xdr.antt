-- ===== src/Xdr.antt =====
-- XDR files (gpsee_xdrfile.c), with mapped input. `none` is an access to memory that is not there.
-- An int or a pointer is its bits.
pub mod Stream
pub mod Chunk
pub mod Writing
pub mod Reading
pub mod Session
pub mod Bounds
pub mod RoundTrip
pub mod Full
use gpsee.Base.{
  ℕ, zero, suc, ◌+◌, ◌-◌, ◌*◌, ◌/◌, ◌%◌, ◌^◌, min, Bool, true, false, not, ◌&&◌, ◌||◌, List, [],
  ◌∷◌, ◌++◌, Option, none, some, ltb, leb, ◌==◌, if◌then◌else◌, length, get_or, take, drop,
  replicate,
}
use gpsee.Util.{◌>>=◌}
pub use gpsee.Stdio.{Whence, seek_set, seek_cur, seek_end, other_whence, File, u64}
unfoldable pub use gpsee.Stdio.{overwritten, fwrite, fread, fseek, extend}

pub data Mode : Type 0 where
  encode : Mode
  decode : Mode
  other_mode : Mode

unfoldable pub is_encode : Mode → Bool
is_encode encode = true
is_encode decode = false
is_encode other_mode = false

-- `region` is the memory that `map` maps.
pub record XdrFile : Type 0 where
  pub mode : Mode
  pub f : Option File
  pub own_file : Bool
  pub region : List ℕ
  pub map : ℕ
  pub mapend : ℕ
  pub maplen : ℕ
  pub mappos : ℕ
  pub raw : Option (List ℕ)
  pub rawlen : ℕ
  pub rawsize : ℕ
  pub rawlive : Bool

-- The four bytes of a uint32 in memory, the low one first, and the uint32 of four bytes.
unfoldable pub word : ℕ → List ℕ
word v = v % 256 ∷ v / 256 % 256 ∷ v / 65536 % 256 ∷ v / 16777216 % 256 ∷ []

unfoldable pub value : List ℕ → ℕ
value s = get_or s 0 0 + get_or s 1 0 * 256 + get_or s 2 0 * 65536 + get_or s 3 0 * 16777216

abbrev pub map_failed : ℕ
map_failed = 2 ^ 64 - 1

-- What `gpsee_XDRNewFile` leaves: the new XDR or NULL, the stream it has closed, whether it has thrown.
pub record Created : Type 0 where
  pub xdr : Option XdrFile
  pub closed : Option File
  pub thrown : Bool

-- Whether XDR_USES_MMAP is defined, what fstat(2) answers, and the address that mmap(2) gives for a file.
module _ (uses_mmap : Bool) (fstat : File → Bool) (mmap : File → ℕ) where
  unfoldable pub map_file : Mode → File → XdrFile → XdrFile
  map_file mode f x =
      if uses_mmap && not (is_encode mode) && fstat f
      then (record x {
        region = if mmap f == map_failed then [] else f.content;
        maplen = length f.content;
        map = mmap f;
        mappos = mmap f;
        mapend = u64 (mmap f + length f.content);
      })
      else x

  -- What the stream `f` that the caller gives is, what fopen(3) gives for his file name in a mode, and
  -- whether JS_malloc finds memory.
  unfoldable pub open_file : Mode → Option File → Option File → Bool → Created
  open_file mode given opened memory = elim given [
    | some f ↦ if memory then made f false else record { xdr = none; closed = none; thrown = false }
    | none ↦ elim opened [
      | none ↦ record { xdr = none; closed = none; thrown = false }
      | some f ↦
          if memory then made f true else record { xdr = none; closed = some f; thrown = false }
    ]
  ]
    where
      made : File → Bool → Created
      made f own = record {
        xdr = some (
            map_file mode f (record {
              mode = mode;
              f = some f;
              own_file = own;
              region = [];
              map = 0;
              mapend = 0;
              maplen = 0;
              mappos = 0;
              raw = none;
              rawlen = 0;
              rawsize = 0;
              rawlive = false;
            }));
        closed = none;
        thrown = false;
      }

  unfoldable pub new_file : Mode → Option File → (Mode → Option File) → Bool → Created
  new_file encode given fopen memory = open_file encode given (fopen encode) memory
  new_file decode given fopen memory = open_file decode given (fopen decode) memory
  new_file other_mode given fopen memory = record { xdr = none; closed = none; thrown = true }

-- The bytes of the raw chunk go to the stream before the next operation; a short write is not noticed.
unfoldable pub commit_raw : XdrFile → Option XdrFile
commit_raw x =
    if x.rawlive && is_encode x.mode
    then (elim x.raw [
      | none ↦ some x
      | some chunk ↦ x.f >>= λ f.
          if ltb (length chunk) (extend x.rawlen)
          then none
          else some
              (record x { f = some (fwrite (take (extend x.rawlen) chunk) f).1; rawlive = false })
    ])
    else some x

-- Whether the next `n` bytes are past the end of the map.
unfoldable pub past_end : XdrFile → ℕ → Bool
past_end x n = ltb x.mapend (u64 (x.mappos + n))

-- The next bytes of the map.
unfoldable pub load : XdrFile → ℕ → Option (List ℕ)
load x n =
    if n == 0
    then some []
    else (if leb x.map x.mappos && leb (x.mappos + n) (x.map + length x.region)
        then some (take n (drop (x.mappos - x.map) x.region))
        else none)

-- The answer, and what stands in the buffer.
unfoldable pub getbytes : ℕ → XdrFile → Option (Bool × List ℕ × XdrFile)
getbytes n x =
    if not (x.mappos == 0)
    then (if past_end x n
        then some (false, [], x)
        else (load x n >>= λ s. some (true, s, record x { mappos = u64 (x.mappos + n) })))
    else (commit_raw x >>= λ x'. elim x'.f [
      | none ↦ some (false, [], x')
      | some f ↦ let (s, f') = fread n f in some (leb n (length s), s, record x' { f = some f' })
    ])

unfoldable pub get32 : XdrFile → Option (Option ℕ × XdrFile)
get32 x = getbytes 4 x >>= λ (ok, s, x'). some (if ok then some (value s) else none, x')

-- The map is read-only.
unfoldable pub setbytes : List ℕ → XdrFile → Option (Bool × XdrFile)
setbytes s x =
    if not (x.mappos == 0)
    then (if past_end x (length s)
        then some (false, x)
        else (if length s == 0 then some (true, x) else none))
    else (commit_raw x >>= λ x'. elim x'.f [
      | none ↦ some (false, x')
      | some f ↦ let (n, f') = fwrite s f in some (leb (length s) n, record x' { f = some f' })
    ])

unfoldable pub set32 : ℕ → XdrFile → Option (Bool × XdrFile)
set32 v x = setbytes (word v) x

-- What `raw` returns: NULL, an address in the map, or `self->raw`.
pub data Pointer : Type 0 where
  null : Pointer
  address : ℕ → Pointer
  buffer : Pointer

abbrev pub pointer : Option (List ℕ) → Pointer
pointer none = null
pointer (some chunk) = buffer

-- What JS_malloc gives.
module _ (allocated : ℕ → Option (List ℕ)) where
  -- A larger buffer where one is needed, and whether there is one.
  unfoldable pub grow : ℕ → XdrFile → Bool × XdrFile
  grow len x =
      if ltb x.rawsize len
      then (elim (allocated len) [
        | none ↦ (false, record x { raw = none; rawlen = 0; rawlive = false; rawsize = 0 })
        | some chunk ↦ (true, record x { raw = some chunk; rawsize = len })
      ])
      else (true, x)

  unfoldable pub fill : ℕ → XdrFile → Option (Pointer × XdrFile)
  fill len x = x.f >>= λ f.
      let (s, f') = fread len f in
      let over : Option (List ℕ) = elim x.raw [
        | none ↦ none
        | some chunk ↦ some (s ++ drop (length s) chunk)
      ] in
      some
        (if ltb (length s) len then null else pointer x.raw, record x { f = some f'; raw = over })

  unfoldable pub raw_chunk : ℕ → XdrFile → Option (Pointer × XdrFile)
  raw_chunk len x =
      if not (x.mappos == 0)
      then (if past_end x len
          then some (null, x)
          else some (address x.mappos, record x { mappos = u64 (x.mappos + len) }))
      else (commit_raw x >>= λ x'.
          let (got, y) = grow len x' in
          let z = record y { rawlen = len; rawlive = true } in
          if got
          then (if is_encode x.mode then some (pointer y.raw, z) else fill len z)
          else some (null, y))

unfoldable pub tell : XdrFile → Option (ℕ × XdrFile)
tell x = commit_raw x >>= λ x'.
    if x'.map == 0
    then (x'.f >>= λ f. some (f.at % 2 ^ 32, x'))
    else some ((x'.mappos + (2 ^ 64 - x'.map)) % 2 ^ 32, x')

unfoldable pub seek_map : ℕ → Whence → XdrFile → Option ℕ
seek_map offset seek_set x = some (u64 (x.map + extend offset))
seek_map offset seek_cur x = some (u64 (x.mappos + extend offset))
seek_map offset seek_end x = some (u64 (x.map + x.maplen + (2 ^ 64 - extend offset)))
seek_map offset other_whence x = none

abbrev pub seek_stream : ℕ → Whence → XdrFile → Option (Bool × XdrFile)
seek_stream offset whence x =
    x.f >>= λ f. let (ok, f') = fseek offset whence f in some (ok, record x { f = some f' })

unfoldable pub seek : ℕ → Whence → XdrFile → Option (Bool × XdrFile)
seek offset whence x = commit_raw x >>= λ x'.
    if not (x'.mappos == 0)
    then (elim (seek_map offset whence x') [
      | none ↦ some (false, x')
      | some to ↦ some (not (ltb x'.mapend to || ltb to x'.map), record x' { mappos = to })
    ])
    else (elim whence [
      | other_whence ↦ some (false, x')
      | seek_set ↦ seek_stream offset seek_set x'
      | seek_cur ↦ seek_stream offset seek_cur x'
      | seek_end ↦ seek_stream offset seek_end x'
    ])

-- The stream as it is left, whether it is closed, and the XDR.
unfoldable pub finalize : XdrFile → Option (Option File × Bool × XdrFile)
finalize x = commit_raw x >>= λ x'. some (
  x'.f,
  x'.own_file,
  record x' {
    region = [];
    map = 0;
    maplen = if x'.map == 0 then x'.maplen else 0;
    mappos = if x'.map == 0 then x'.mappos else 0;
    mapend = if x'.map == 0 then x'.mapend else 0;
    raw = none;
    rawsize = elim x'.raw [ none ↦ x'.rawsize | some chunk ↦ 0 ];
    f = none;
  },
)
