-- ===== src/Base64.antt =====
-- The base-64 half of modules/binary/base64.c. A C string is the list of its bytes before the NUL.
pub mod Text
pub mod Encode
pub mod Written
pub mod Decode
use Prim.Native.Nat.{bit_and, bit_or}
pub use gpsee.Base.Text.{codes}
use gpsee.Base.{
  ℕ, zero, suc, ◌+◌, ◌-◌, ◌*◌, ◌^◌, ◌/◌, ◌%◌, Bool, true, false, List, [], ◌∷◌, ◌++◌, Option, none,
  some, leb, ◌==◌, if◌then◌else◌, length, get_or, set, take, drop,
}

abbrev pub alphabet : List ℕ
alphabet = codes "ABCDEFGHIJKLMNOPQRSTUVWXYZabcdefghijklmnopqrstuvwxyz0123456789+/="

-- `strchr` of a byte that is not NUL: how far from the start it stands.
unfoldable pub index_of : List ℕ → ℕ → Option ℕ
index_of [] c = none
index_of (x ∷ xs) c =
    if x == c then some 0 else (elim (index_of xs c) [ none ↦ none | some i ↦ some (suc i) ])

-- `unsigned char`
abbrev pub u8 : ℕ → ℕ
u8 n = n % 256

unfoldable pub letter : ℕ → ℕ
letter value = get_or alphabet value 0

infixl 5 ◌>>=◌
abbrev pub ◌>>=◌ {ℓ κ} : {A : Type ℓ} {B : Type κ} → Option A → (A → Option B) → Option B
none >>= f = none
some a >>= f = f a

-- The loop of `b64_to_binary` at the position `pos` of the string, with what is left of it: the
-- bytes that it stores.
unfoldable pub decode_loop : ℕ → ℕ → List ℕ → List ℕ
decode_loop pos leftover [] = []
decode_loop pos leftover (ch ∷ s) = elim (index_of alphabet ch) [
  | none ↦ []
  | some value ↦
      let case = pos % 4 in
      let start = decode_loop (pos + 1) (u8 (value * 4)) s in
      let first = bit_or (value / 16) leftover ∷ decode_loop (pos + 1) (u8 (value * 16)) s in
      let second = bit_or (value / 4) leftover ∷ decode_loop (pos + 1) (u8 (value * 64)) s in
      let third = bit_or value leftover ∷ decode_loop (pos + 1) 0 s in
      if ch == b'='
      then (if case == 1 then leftover ∷ [] else [])
      else (if case == 0
          then start
          else (if case == 1 then first else (if case == 2 then second else third)))
]

-- `given` tells whether the caller passes a buffer; `grants` whether the allocator gives so many
-- bytes. `none` is NULL.
unfoldable pub b64_to_binary : (ℕ → Bool) → Bool → List ℕ → Option (List ℕ)
b64_to_binary grants given b64 =
    if given
    then some (decode_loop 0 0 b64)
    else (if grants (length b64 * 6 / 8 + 1) then some (decode_loop 0 0 b64) else none)

-- The three integers; `none` is EOF.
pub encode_3bytes : ℕ → Option ℕ → Option ℕ → List ℕ
unfolding letter
encode_3bytes a none c = letter (a / 4) ∷ letter (bit_and a 0x03 * 16) ∷ b'=' ∷ b'=' ∷ []
encode_3bytes a (some b) none =
    letter (a / 4)
    ∷ letter (bit_or (bit_and a 0x03 * 16) (b / 16))
    ∷ letter (bit_and b 0x0f * 4)
    ∷ b'='
    ∷ []
encode_3bytes a (some b) (some c) =
    letter (a / 4)
    ∷ letter (bit_or (bit_and a 0x03 * 16) (b / 16))
    ∷ letter (bit_or (bit_and b 0x0f * 4) (c / 64))
    ∷ letter (bit_and c 0x3f)
    ∷ []

-- `b64_encode_3bytes(c)` for the array `c`.
encode_c : List ℕ → List ℕ
unfolding encode_3bytes
encode_c c = encode_3bytes (get_or c 0 0) (some (get_or c 1 0)) (some (get_or c 2 0))

-- A write of some bytes into a buffer; `none` is a write through NULL or past the end.
pub store : Option (List ℕ) → ℕ → List ℕ → Option (Option (List ℕ))
store none at bytes = none
store (some out) at bytes =
    if leb (at + length bytes) (length out)
    then some (some (take at out ++ (bytes ++ drop (at + length bytes) out)))
    else none

-- `if (out) memcpy(out + outLen, ...)`
copy : Option (List ℕ) → ℕ → List ℕ → Option (Option (List ℕ))
copy none at bytes = some none
copy (some out) at bytes = store (some out) at bytes

pub record Encoder : Type 0 where
  pub i : ℕ
  pub c : List ℕ
  pub out_len : ℕ
  pub out : Option (List ℕ)

-- The loop of `binary_to_b64` over what is left of `in`, for an input that keeps `i` an `int`.
pub encode_loop : List ℕ → Encoder → Option Encoder
unfolding copy encode_c
encode_loop [] e = some e
encode_loop (x ∷ xs) e = do
  e₁ ←
      (if e.i == 0
        then some e
        else (if e.i % 3 == 0
            then (copy e.out e.out_len (encode_c e.c) >>= λ out.
                some (record e { out = out; out_len = e.out_len + 4 }))
            else some e))
  encode_loop xs (record e₁ { c = set e₁.c (e₁.i % 3) x; i = e₁.i + 1 })

-- What stands below the loop: two switches, each with its cases falling through.
pub finish : Encoder → Option (ℕ × Option (List ℕ))
unfolding copy encode_c
finish e =
    let rest = e.i % 3 in
    let c₁ = if rest == 1 then set e.c 1 0 else e.c in
    let c₂ = if rest == 0 then c₁ else set c₁ 2 0 in
    copy e.out e.out_len (encode_c c₂) >>= λ out.
    if rest == 0
    then (store out (e.out_len + 4) (0 ∷ []) >>= λ out₁. some (e.out_len, out₁))
    else ((if rest == 1 then store out (e.out_len + 2) (b'=' ∷ []) else some out) >>= λ out₁.
        store out₁ (e.out_len + 3) (b'=' ∷ []) >>= λ out₂.
        store out₂ (e.out_len + 4) (0 ∷ []) >>= λ out₃. some (e.out_len + (rest + 1), out₃))

-- The largest value of an `int`.
abbrev pub int_max : ℕ
int_max = 2 ^ 31 - 1

-- `junk` is what the array `c` holds before it is written. The result is the number returned, and
-- the buffer. The counter `i` is an `int`, which takes every value up to the length: a longer input
-- makes it overflow, which is undefined, and `none` here.
unfoldable pub binary_to_b64 : List ℕ → List ℕ → Option (List ℕ) → Option (ℕ × Option (List ℕ))
unfolding encode_loop finish
binary_to_b64 junk bytes out =
    if leb (length bytes) int_max
    then (encode_loop bytes (record { i = 0; c = junk; out_len = 0; out = out }) >>= finish)
    else none
