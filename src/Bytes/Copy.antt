-- ===== src/Bytes/Copy.antt =====
-- `copyJSArray_toBuf` of modules/binary/bytethings.c: the elements of an array of the script are copied
-- into a buffer, while the array may change its length. The engine is a parameter with its state, and
-- so is the allocator.
pub mod Turns
pub mod Bounds
pub mod Stable
use gpsee.Base.{
  ℕ, zero, suc, ◌+◌, ◌%◌, ◌^◌, min, Bool, true, false, List, [], ◌∷◌, Option, none, some, ltb, ◌==◌,
  if◌then◌else◌, length,
}
use gpsee.Util.{poke}
use gpsee.Bytes.{Double, Result, ok, thrown, number2byte}

-- JS_GetArrayLength, and JS_GetElement with JS_ValueToNumber behind it; `none` is JS_FALSE.
pub record Engine (W : Type 0) : Type 0 where
  pub array_length : W → Option ℕ × W
  pub element : ℕ → W → Option Double × W

-- JS_malloc and JS_realloc; `none` is NULL.
pub record Memory : Type 0 where
  pub malloc : ℕ → Option (List ℕ)
  pub realloc : List ℕ → ℕ → Option (List ℕ)

abbrev pub u32 : ℕ → ℕ
u32 n = n % 2 ^ 32

-- The variables of the loop.
pub record Copying : Type 0 where
  pub buf : List ℕ
  pub buf_len : ℕ
  pub arr_len : ℕ
  pub stop : ℕ

-- What the function leaves: the buffer, `*lenp` and `*more`; a failure; a write past the buffer; a run
-- without fuel.
pub data Copied : Type 0 where
  copied : List ℕ → ℕ → Bool → Copied
  failed overrun unfinished : Copied

-- What one turn of the loop does.
pub data Turn : Type 0 where
  next : Copying → Turn
  failed overrun : Turn

module _ {W : Type 0} (engine : Engine W) (memory : Memory) (own : Bool) where
  -- The length is read again, and the buffer or the end follows it.
  unfoldable pub resize : Copying → Option ℕ → Turn
  resize c none = failed
  resize c (some arr_len) =
      if arr_len == c.buf_len
      then next (record c { arr_len = arr_len })
      else (if own
          then (elim (memory.realloc c.buf arr_len) [
            | none ↦ failed
            | some buf ↦
                next (record { buf = buf; buf_len = arr_len; arr_len = arr_len; stop = arr_len })
          ])
          else next (record c { arr_len = arr_len; stop = min c.buf_len arr_len }))

  -- The result is stored at `i`.
  unfoldable pub store : ℕ → Copying → W → Result ℕ → Turn × W
  unfolding resize poke
  store i c w (thrown e) = (failed, w)
  store i c w (ok byte) = elim (poke i byte c.buf) [
    | none ↦ (overrun, w)
    | some buf ↦
        let (arr_len, w₁) = engine.array_length w in (resize (record c { buf = buf }) arr_len, w₁)
  ]

  unfoldable pub turn : ℕ → ℕ → Copying → W → Turn × W
  unfolding store
  turn start i c w = let (d, w₁) = engine.element (start + i) w in store i c w₁ (number2byte d)

  unfoldable pub copy_loop : ℕ → ℕ → ℕ → Copying → W → Copied × W
  unfolding turn
  copy_loop zero start i c w = (unfinished, w)
  copy_loop (suc fuel) start i c w =
      if ltb i c.stop
      then (let (t, w₁) = turn start i c w in
          elim t [
            | next c₁ ↦ copy_loop fuel start (i + 1) c₁ w₁
            | failed ↦ (failed, w₁)
            | overrun ↦ (overrun, w₁)
          ])
      else (copied c.buf c.stop (ltb c.arr_len c.stop), w)

-- `i` is a `jsuint`, and below `stop`, which is one.
abbrev pub rounds : ℕ
rounds = 2 ^ 32

module _ {W : Type 0} (engine : Engine W) (memory : Memory) (start : ℕ) where
  -- The buffer of the function's own, or the caller's with `*lenp`.
  unfoldable pub copy_sized : Option (List ℕ × ℕ) → ℕ → W → Copied × W
  unfolding copy_loop
  copy_sized none arr_len w = elim (memory.malloc arr_len) [
    | none ↦ (failed, w)
    | some buf ↦
        copy_loop engine memory true rounds start 0
          (record { buf = buf; buf_len = arr_len; arr_len = arr_len; stop = arr_len }) w
  ]
  copy_sized (some (buf, len)) arr_len w =
      copy_loop engine memory false rounds start 0
        (record { buf = buf; buf_len = u32 len; arr_len = arr_len; stop = min (u32 len) arr_len }) w

  -- An array without elements gives NULL for a buffer of the function's own.
  abbrev pub empty : Option (List ℕ × ℕ) → Copied
  empty none = copied [] 0 false
  empty (some (buf, len)) = copied buf 0 false

  unfoldable pub copy_JsArray : Option (List ℕ × ℕ) → W → Copied × W
  unfolding copy_sized
  copy_JsArray given w =
      let (length, w₁) = engine.array_length w in
      elim length [
        | none ↦ (failed, w₁)
        | some arr_len ↦ if arr_len == 0 then (empty given, w₁) else copy_sized given arr_len w₁
      ]
