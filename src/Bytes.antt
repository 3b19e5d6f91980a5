-- ===== src/Bytes.antt =====
-- modules/binary/bytethings.c, what ByteString and ByteArray share: arguments as sizes and bytes, and
-- access to the buffer, in a build for 64-bit Linux without memrchr. A buffer is the list of its bytes,
-- and `none` is a read behind it. The engine's values and JS_ValueToNumber are parameters.
pub mod Arguments
pub mod Needle
pub mod Search
pub mod Access
pub mod Copy
pub mod Join
use gpsee.Base.{
  ℕ, zero, suc, ◌+◌, ◌-◌, ◌^◌, Bool, true, false, not, ◌&&◌, ◌||◌, List, [], ◌∷◌, Option, none,
  some, ltb, leb, ◌==◌, if◌then◌else◌, length, get_elem?, take, drop,
}
use gpsee.Util.{◌>>=◌, size_mod, size_sub}

-- A `jsdouble`, as far as the casts and the comparisons tell one from another: an integer with its
-- sign and its magnitude, or any other number, with its sign; a NaN is one without.
pub data Double : Type 0 where
  whole : Bool → ℕ → Double
  fraction : Bool → Double

-- The exceptions that are thrown.
pub data Thrown : Type 0 where
  invalid_type invalid_value negative too_few underflow overflow wrong_count : Thrown

pub data Result {ℓ} (A : Type ℓ) : Type ℓ where
  ok : A → Result A
  thrown : Thrown → Result A

-- Is the number below zero?
abbrev pub is_negative : Bool → ℕ → Bool
is_negative sign n = sign && not (n == 0)

-- A value as a `ssize_t`, with its sign; the argument is what JS_ValueToNumber gives.
unfoldable pub val2ssize : Option Double → Result (Bool × ℕ)
val2ssize none = thrown invalid_type
val2ssize (some (fraction sign)) = thrown invalid_value
val2ssize (some (whole sign n)) =
    if leb n (if sign then 2 ^ 63 else 2 ^ 63 - 1)
    then ok (is_negative sign n, n)
    else thrown invalid_value

-- A value as a `size_t`.
unfoldable pub val2size : Option Double → Result ℕ
val2size none = thrown invalid_type
val2size (some (fraction sign)) = if sign then thrown negative else thrown invalid_value
val2size (some (whole sign n)) =
    if is_negative sign n
    then thrown negative
    else (if ltb n size_mod then ok n else thrown invalid_value)

-- A number as a byte.
unfoldable pub number2byte : Option Double → Result ℕ
number2byte none = thrown invalid_value
number2byte (some (fraction sign)) = thrown invalid_value
number2byte (some (whole sign n)) =
    if not (is_negative sign n) && ltb n 256 then ok n else thrown invalid_value

-- What an argument is: no object, null, one of the two classes with its length, another object.
pub data Kind : Type 0 where
  primitive null : Kind
  byte_thing : ℕ → Kind
  other_object : Kind

-- A value as a byte; of a ByteString or a ByteArray of one byte it is not that byte, but what
-- JS_ValueToNumber makes of the object. `none` is the class that is read of null.
unfoldable pub val2byte : Kind → Option Double → Option (Result ℕ)
unfolding number2byte
val2byte primitive d = some (number2byte d)
val2byte null d = none
val2byte (byte_thing len) d = some (if len == 1 then number2byte d else thrown invalid_value)
val2byte other_object d = some (thrown invalid_value)

-- The bounds of `byteThing_arg2size`, on a `ssize_t`.
unfoldable pub check_size : ℕ → ℕ → Result (Bool × ℕ) → Result ℕ
check_size least most (thrown e) = thrown e
check_size least most (ok (sign, n)) =
    if sign || ltb n least then thrown underflow else (if ltb most n then thrown overflow else ok n)

-- `argument` is what JS_ValueToNumber gives for the argument, if there is one; `preset` is the
-- default, if there is one.
unfoldable pub arg2size : Option (Option Double) → ℕ → ℕ → Option ℕ → Result ℕ
arg2size none least most none = thrown too_few
arg2size none least most (some n) = ok n
arg2size (some d) least most preset = check_size least most (val2ssize d)

-- A handle: the block it points to and the length it gives.
pub record Handle : Type 0 where
  pub buffer : List ℕ
  pub length : ℕ

-- What a script gets: a number, a byte string, or `undefined`.
pub data Answer : Type 0 where
  number : ℕ → Answer
  byte_string : List ℕ → Answer
  minus_one undefined : Answer

abbrev pub give : Bool → ℕ → Answer
give as_string byte = if as_string then byte_string (byte ∷ []) else number byte

-- The byte at an index that has been checked.
unfoldable pub read_at : Handle → Bool → Result ℕ → Option (Result Answer)
read_at hnd as_string (thrown e) = some (thrown e)
read_at hnd as_string (ok index) =
    get_elem? hnd.buffer index >>= λ byte. some (ok (give as_string byte))

-- byteAt, charAt, charCodeAt and get; the flag is `rtype == byteString_clasp`.
unfoldable pub byar_at : Handle → Bool → Option (Option Double) → Option (Result Answer)
unfolding size_sub
byar_at hnd as_string argument =
    read_at hnd as_string (arg2size argument 0 (size_sub hnd.length 1) none)

-- What `byteThing_getProperty` does with an index; a key that is none leaves the property alone.
unfoldable pub property_at : Handle → Bool → Result ℕ → Option (Option Answer)
property_at hnd as_string (thrown e) = some none
property_at hnd as_string (ok index) =
    if leb hnd.length index
    then some (some undefined)
    else (get_elem? hnd.buffer index >>= λ byte. some (some (give as_string byte)))

abbrev pub get_property : Handle → Bool → Option Double → Option (Option Answer)
get_property hnd as_string key = property_at hnd as_string (val2size key)

-- `memchr` of the C library, as an offset.
unfoldable pub memchr : List ℕ → ℕ → ℕ → Option (Option ℕ)
memchr s c zero = some none
memchr [] c (suc n) = none
memchr (x ∷ s) c (suc n) =
    let rest = memchr s c n in
    if x == c
    then some (some 0)
    else (rest >>= λ found. some (elim found [ none ↦ none | some k ↦ some (suc k) ]))

-- `*p == c` for a `char`, which has a sign, and an `int` from 0 to 255.
abbrev pub same_char : ℕ → ℕ → Bool
same_char byte c = ltb byte 128 && (byte == c)

-- The loop of `gpsee_memrchr`, from the offset n down.
unfoldable pub memrchr : List ℕ → ℕ → ℕ → Option (Option ℕ)
memrchr s c zero = get_elem? s 0 >>= λ byte. some (if same_char byte c then some 0 else none)
memrchr s c (suc n) =
    let rest = memrchr s c n in
    get_elem? s (suc n) >>= λ byte. (if same_char byte c then some (some (suc n)) else rest)

-- The arguments of indexOf and lastIndexOf: how many, what the first is, and what JS_ValueToNumber
-- gives for each.
pub record FindArguments : Type 0 where
  pub count : ℕ
  pub kind : Kind
  pub needle : Option Double
  pub start : Option (Option Double)
  pub len : Option (Option Double)

module _ (search : List ℕ → ℕ → ℕ → Option (Option ℕ)) (hnd : Handle) where
  -- From behind the conversions.
  unfoldable pub find_in : ℕ → ℕ → Result ℕ → Option (Result Answer)
  find_in byte start (thrown e) = some (thrown e)
  find_in byte start (ok len) = search (drop start hnd.buffer) byte len >>= λ found.
      some (ok (elim found [ none ↦ minus_one | some k ↦ number (start + k) ]))

  unfoldable pub find_from : ℕ → Option (Option Double) → Result ℕ → Option (Result Answer)
  unfolding size_sub
  find_from byte len (thrown e) = some (thrown e)
  find_from byte len (ok start) =
      let left = size_sub hnd.length start in find_in byte start (arg2size len 0 left (some left))

  unfoldable pub find_byte : FindArguments → Result ℕ → Option (Result Answer)
  unfolding size_sub
  find_byte args (thrown e) = some (thrown e)
  find_byte args (ok byte) =
      find_from byte args.len (arg2size args.start 0 (size_sub hnd.length 1) (some 0))

  unfoldable pub find_char : FindArguments → Option (Result Answer)
  find_char args =
      if (args.count == 0) || ltb 3 args.count
      then some (thrown wrong_count)
      else (val2byte args.kind args.needle >>= λ byte. find_byte args byte)
