-- ===== src/Bytes/Join.antt =====
-- `byteThing_val2bytes` of modules/binary/bytethings.c, but for its shortcut for a single object: numbers,
-- arrays and objects of the two classes are put into one new buffer, one behind the other.
pub mod Bounds
pub mod Buffer
pub mod Contents
use gpsee.Base.{
  ℕ, zero, suc, ◌+◌, ◌-◌, ◌*◌, Bool, true, false, List, [], ◌∷◌, ◌++◌, Option, none, some, ltb, leb,
  if◌then◌else◌, length, take, drop,
}
use gpsee.Util.{poke}
use gpsee.Bytes.{Double, Result, ok, thrown, number2byte}
use gpsee.Bytes.Copy.{Engine, Memory, Copied, copied, failed, overrun, unfinished, copy_JsArray}

-- A value: an array of the script, an object of one of the two classes with its bytes, another object,
-- null, or what JS_ValueToNumber makes of any other value.
pub data Value (W : Type 0) : Type 0 where
  array : Engine W → Value W
  bytes : List ℕ → Value W
  object null : Value W
  scalar : Option Double → Value W

-- The buffer, the length that is kept of it, and how far `bufpos` is into it.
pub record Joining : Type 0 where
  pub buf : List ℕ
  pub buf_len : ℕ
  pub pos : ℕ

-- What a value leaves: the buffer, a failure, a write past the buffer, a class read of null, or a call that is not followed
-- further: a second round for an array, as `more` was set.
pub data Joined : Type 0 where
  joined : Joining → Joined
  refused past crashed again : Joined

module _ (memory : Memory) where
  -- A buffer of so many bytes; `none` is NULL.
  abbrev pub regrow : ℕ → Joining → Option (List ℕ) → Option Joining
  regrow n j none = none
  regrow n j (some buf) = some (record j { buf = buf; buf_len = n })

  -- Room for `need` bytes behind `bufpos`.
  unfoldable pub make_room : ℕ → Joining → Option Joining
  make_room need j =
      if ltb j.buf_len (j.pos + need)
      then regrow (j.pos + need) j (memory.realloc j.buf (j.pos + need))
      else some j

  -- Room for one byte, by a buffer of twice the size.
  unfoldable pub make_double : Joining → Option Joining
  make_double j =
      if leb j.buf_len j.pos
      then regrow (j.buf_len * 2) j (memory.realloc j.buf (j.buf_len * 2))
      else some j

  -- Bytes copied to `bufpos`.
  unfoldable pub put_bytes : List ℕ → Option Joining → Joined
  put_bytes bs none = refused
  put_bytes bs (some j) =
      if leb (j.pos + length bs) (length j.buf)
      then joined (record j {
        buf = take j.pos j.buf ++ bs ++ drop (j.pos + length bs) j.buf;
        pos = j.pos + length bs;
      })
      else past

  -- Behind copyJSArray_toBuf, which has filled the rest of the buffer from `bufpos` on.
  unfoldable pub put_copied : Joining → Copied → Joined
  put_copied j (copied rest len false) =
      joined (record j { buf = take j.pos j.buf ++ rest; pos = j.pos + len })
  put_copied j (copied rest len true) = again
  put_copied j failed = refused
  put_copied j overrun = past
  put_copied j unfinished = again

  abbrev pub join_number : Joining → Result ℕ → Joined
  join_number j (thrown e) = refused
  join_number j (ok byte) = put_bytes (byte ∷ []) (make_double j)

  -- The buffer cut to what is in it; `none` is the assertion that this gives one.
  unfoldable pub trim : Joined → Option Joined
  trim (joined j) = elim (memory.realloc j.buf j.pos) [
    | none ↦ none
    | some buf ↦ some (joined (record j { buf = buf; buf_len = j.pos }))
  ]
  trim refused = some refused
  trim past = some past
  trim crashed = some crashed
  trim again = some again

  module _ {W : Type 0} where
    -- An array whose length has been read.
    unfoldable pub put_array : Engine W → Option Joining → W → Joined × W
    unfolding put_copied
    put_array engine none w = (refused, w)
    put_array engine (some j) w =
        let (c, w₁) = copy_JsArray engine memory 0 (some (drop j.pos j.buf, j.buf_len - j.pos)) w in
        (put_copied j c, w₁)

    unfoldable pub join_array : Engine W → Joining → Option ℕ × W → Joined × W
    unfolding put_array make_room
    join_array engine j (none, w) = (refused, w)
    join_array engine j (some n, w) = put_array engine (make_room n j) w

    unfoldable pub join_value : Value W → Joining → W → Joined × W
    unfolding join_array put_bytes make_room make_double
    join_value (array engine) j w = join_array engine j (engine.array_length w)
    join_value (bytes bs) j w = (put_bytes bs (make_room (length bs) j), w)
    join_value object j w = (refused, w)
    join_value null j w = (crashed, w)
    join_value (scalar d) j w = (join_number j (number2byte d), w)

    unfoldable pub join_values : List (Value W) → Joining → W → Joined × W
    unfolding join_value
    join_values [] j w = (joined j, w)
    join_values (v ∷ vs) j w =
        let (t, w₁) = join_value v j w in
        elim t [
          | joined j₁ ↦ join_values vs j₁ w₁
          | refused ↦ (refused, w₁)
          | past ↦ (past, w₁)
          | crashed ↦ (crashed, w₁)
          | again ↦ (again, w₁)
        ]

    abbrev from : List (Value W) → W → Option (List ℕ) → Joined × W
    from values w none = (refused, w)
    from values w (some buf) = join_values values (record { buf = buf; buf_len = 64; pos = 0 }) w

    unfoldable pub val2bytes : List (Value W) → W → Option Joined × W
    unfolding trim join_values
    val2bytes values w = let (t, w₁) = from values w (memory.malloc 64) in (trim t, w₁)
