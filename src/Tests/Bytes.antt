-- ===== src/Tests/Bytes.antt =====
-- What ByteString and ByteArray share (modules/binary/bytethings.c).
use mathlib.Core.Option.{some-injective, none-ne-some}
use mathlib.Core.List.{append_assoc}
use gpsee.Base.{
  length, ℕ, zero, suc, ◌+◌, ◌-◌, ◌++◌, ◌∙◌, ap, length-append, length-take, take-append, ◌<◌, ◌≤◌,
  ◌≡◌, ◌⊎◌, refl, true, false, List, [], ◌∷◌, Option, none, some, arith, ltb, leb, if◌then◌else◌,
  get_elem?, take, replicate, length-replicate,
}
use gpsee.Base64.{index_of}
use gpsee.Util.{last_index, size_sub}
use gpsee.Bytes.Search.{memrchr_lem}
use gpsee.Bytes.Arguments.{asked}
use gpsee.Bytes.Needle.{needle_of, byte_of}
use gpsee.Bytes.Access.{IsHandle, found, find_char-index_of}
use gpsee.Bytes.Copy.{Engine, Memory, copied, failed, copy_JsArray}
use gpsee.Bytes.Copy.Turns.{IsPlatform}
use gpsee.Bytes.Copy.Bounds.{IsWithin, copy_JsArray-IsWithin}
use gpsee.Bytes.Copy.Stable.{IsStable}
use gpsee.Bytes.Join.{Value, scalar, bytes, array, Joining, joined, refused, val2bytes}
use gpsee.Bytes.Join.Buffer.{IsGranting}
use gpsee.Bytes.Join.Contents.{
  AreContents, nil, cons, one_byte, byte_thing, fixed_array, val2bytes-AreContents,
}
use gpsee.Bytes.Join.Bounds.{IsAllocator, val2bytes-IsCut}
use gpsee.Bytes.{
  Double, whole, fraction, Thrown, ok, thrown, primitive, val2ssize, number2byte, val2byte,
  check_size, arg2size, Handle, Answer, number, read_at, byar_at, memchr, memrchr, FindArguments,
  find_in, find_from, find_byte, find_char,
}

-- A byte string of three bytes.
abbrev handle : Handle
handle = record { buffer = 7 ∷ 200 ∷ 7 ∷ []; length = 3 }

handle-IsHandle : IsHandle handle
handle-IsHandle = record { inside = omega arith; fits = omega arith }

memrchr_lem_example : memrchr (7 ∷ 200 ∷ 7 ∷ []) 7 2 ≡ (
    if leb 3 2
    then none
    else some (if ltb 7 128 then last_index 7 (take 3 (7 ∷ 200 ∷ 7 ∷ [])) else none))
memrchr_lem_example = memrchr_lem (7 ∷ 200 ∷ 7 ∷ []) 7 2

-- lastIndexOf without bounds reads behind a block of just its bytes.
last_index_past :
    find_char memrchr handle (record {
      count = 1;
      kind = primitive;
      needle = some (whole false 9);
      start = none;
      len = none;
    })
    ≡ none
unfolding find_char val2byte number2byte find_byte arg2size size_sub find_from find_in memrchr
last_index_past = refl

-- In an empty byte string every index passes the bounds.
empty_past : byar_at (record { buffer = []; length = 0 }) false (some (some (whole false 5))) ≡ none
unfolding byar_at size_sub arg2size check_size val2ssize read_at
empty_past = refl

abbrev arguments : FindArguments
arguments = record {
  count = 2;
  kind = primitive;
  needle = some (whole false 7);
  start = some (some (whole false 1));
  len = none;
}

find_char-index_of_example :
    ((e : Thrown) × (find_char memchr handle arguments ≡ some (thrown e))
      × (found handle arguments ≡ none))
    ⊎ ((a : Answer) × (find_char memchr handle arguments ≡ some (ok a))
        × (found handle arguments ≡ some a))
find_char-index_of_example = find_char-index_of handle arguments handle-IsHandle (omega arith) tt

negative_asks_nothing : asked 2 none (some (some (whole true 1))) ≡ none
unfolding asked
negative_asks_nothing = refl

found-arguments : found handle arguments ≡ some (number 2)
unfolding found needle_of byte_of asked index_of
found-arguments = refl

found_at_two : find_char memchr handle arguments ≡ some (ok (number 2))
unfolding find_char val2byte number2byte find_byte arg2size check_size val2ssize size_sub find_from
    find_in memchr
found_at_two = refl

-- An array of the bytes 5 and 6; the state is how many times its length was read.
abbrev elements : ℕ → Option Double
elements zero = some (whole false 5)
elements (suc zero) = some (whole false 6)
elements (suc (suc k)) = some (fraction false)

abbrev engine : Engine (Unit {0})
engine = record { array_length = λ w. (some 2, w); element = λ k w. (elements k, w) }

abbrev memory : Memory
memory = record { malloc = λ n. some (replicate n 0); realloc = λ block n. some (replicate n 0) }

memory-IsPlatform : IsPlatform engine memory
memory-IsPlatform = record {
  length_fits = λ w n e. omega (arith, some-injective _ _ e);
  length-malloc = λ n b e. rw (← some-injective _ _ e) (length-replicate n 0);
  length-realloc = λ n b b' e. rw (← some-injective _ _ e) (length-replicate n 0);
}

copy_JsArray-IsWithin_example :
    ((buf : List ℕ) × (len : ℕ) × ((copy_JsArray engine memory 0 (some (1 ∷ 2 ∷ 3 ∷ [], 1)) tt).0
        ≡ copied buf len false)
      × IsWithin (some (1 ∷ 2 ∷ 3 ∷ [], 1)) buf len)
    ⊎ ((copy_JsArray engine memory 0 (some (1 ∷ 2 ∷ 3 ∷ [], 1)) tt).0 ≡ failed)
copy_JsArray-IsWithin_example =
    copy_JsArray-IsWithin engine memory 0 (some (1 ∷ 2 ∷ 3 ∷ [], 1)) tt memory-IsPlatform
      (omega arith)

same_elements :
    (w : Unit {0}) (k x : ℕ)
    → get_elem? (5 ∷ 6 ∷ []) k ≡ some x
    → engine.element k w ≡ (some (whole false x), w)
same_elements w zero x e = rw (some-injective _ _ e) refl
same_elements w (suc zero) x e = rw (some-injective _ _ e) refl
same_elements w (suc (suc k)) x e = absurd (none-ne-some _ e)

elements_are_bytes : (k x : ℕ) → get_elem? (5 ∷ 6 ∷ []) k ≡ some x → x < 256
elements_are_bytes zero x e = omega (arith, some-injective _ _ e)
elements_are_bytes (suc zero) x e = omega (arith, some-injective _ _ e)
elements_are_bytes (suc (suc k)) x e = absurd (none-ne-some _ e)

engine-IsStable : IsStable engine (5 ∷ 6 ∷ [])
engine-IsStable = record {
  same_length = λ w. refl;
  same_element = same_elements;
  is_byte = elements_are_bytes;
}

memory_first : (b : List ℕ) → memory.malloc 64 ≡ some b → length b ≡ 64
memory_first b e = rw (← some-injective _ _ e) (length-replicate {A = ℕ} 64 0)

memory-IsAllocator : IsAllocator memory
memory-IsAllocator = memory-IsPlatform.length-realloc

-- A number, a byte string, and the array.
abbrev values : List (Value (Unit {0}))
values = scalar (some (whole false 9)) ∷ bytes (7 ∷ 8 ∷ []) ∷ array engine ∷ []

val2bytes-IsCut_example :
    ((j : Joining) × ((val2bytes memory values tt).0 ≡ some (joined j)) × (length j.buf ≡ j.pos))
    ⊎ ((val2bytes memory values tt).0 ≡ some refused)
    ⊎ ((val2bytes memory values tt).0 ≡ none)
val2bytes-IsCut_example =
    val2bytes-IsCut memory values tt memory-IsAllocator memory_first (memory-IsPlatform, tt)

-- A block that grows keeps what is in it, and has zeros behind.
abbrev keeping : Memory
keeping = record {
  malloc = λ n. some (replicate n 0);
  realloc = λ b n. some (take n (b ++ replicate n 0));
}

keeping-grants :
    (before rest : List ℕ) (n k : ℕ)
    → n ≡ length before + k
    → (after : List ℕ) × (keeping.realloc (before ++ rest) n ≡ some (before ++ after))
      × (length before + length after ≡ n)
keeping-grants before rest n k e =
    let zeros : List ℕ = replicate n 0 in
    let fits : k ≤ length (rest ++ zeros) =
      omega (arith, e, length-append rest zeros, length-replicate {A = ℕ} n 0) in
    (
      take k (rest ++ zeros),
      ap some (
          ap (take n) (append_assoc before rest zeros)
          ∙ ap (λ m. take m (before ++ (rest ++ zeros))) e
          ∙ take-append before (rest ++ zeros) k),
      omega (arith, e, length-take k (rest ++ zeros) fits),
    )

keeping-IsGranting : IsGranting keeping
keeping-IsGranting = record {
  first = (replicate 64 0, refl, length-replicate {A = ℕ} 64 0);
  grants =
      λ before rest n pos le. keeping-grants before rest n (n - length before) (omega (arith, le));
}

values-AreContents : AreContents values (9 ∷ 7 ∷ 8 ∷ 5 ∷ 6 ∷ [])
unfolding number2byte
values-AreContents =
    cons (one_byte refl) (cons (byte_thing _) (cons (fixed_array engine-IsStable) nil))

val2bytes-AreContents_example :
    val2bytes keeping values tt
    ≡ (some (joined (record { buf = 9 ∷ 7 ∷ 8 ∷ 5 ∷ 6 ∷ []; buf_len = 5; pos = 5 })), tt)
val2bytes-AreContents_example =
    val2bytes-AreContents keeping values (9 ∷ 7 ∷ 8 ∷ 5 ∷ 6 ∷ []) tt keeping-IsGranting
      values-AreContents (omega arith) (omega arith)
