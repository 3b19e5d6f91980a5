-- ===== src/Base64/Encode.antt =====
-- `binary_to_b64` of modules/binary/base64.c writes the base-64 text of its input.
use gpsee.Base.{
  ℕ, ◌+◌, ◌*◌, ◌/◌, ◌%◌, ◌<◌, ◌≤◌, ◌≡◌, ◌⊎◌, inl, inr, refl, true, false, List, [], ◌∷◌, ◌++◌, some,
  arith, ◌==◌, length, take, drop, take-append, drop-append, length-append, length-drop, drop-drop,
  set,
}
use mathlib.Core.List.{append_assoc}
use gpsee.Base64.{letter, encode_3bytes, encode_c, store, copy, Encoder, encode_loop, finish}
use gpsee.Base64.Text.{encode_3bytes_lem}

-- A write `k` bytes behind `pre`.
store_behind :
    (pre xs bytes : List ℕ) (k : ℕ)
    → k + length bytes ≤ length xs
    → store (some (pre ++ xs)) (length pre + k) bytes
      ≡ some (some (pre ++ (take k xs ++ (bytes ++ drop (k + length bytes) xs))))
unfolding store
store_behind pre xs bytes k fits =
    let n = length bytes in
    ground (
      arith,
      take-append pre xs k,
      drop-append pre xs (k + n),
      length-append pre xs,
      append_assoc pre (take k xs) (bytes ++ drop (k + n) xs),
    )

module _ (pre rest : List ℕ) (q₀ q₁ q₂ q₃ : ℕ) where
  abbrev group : List ℕ
  group = q₀ ∷ q₁ ∷ q₂ ∷ q₃ ∷ []

  copy_behind :
      4 ≤ length rest
      → copy (some (pre ++ rest)) (length pre) group ≡ some (some (pre ++ (group ++ drop 4 rest)))
  unfolding copy
  copy_behind room =
      let e : length pre + 0 ≡ length pre = omega arith in
      rw e at (store_behind pre rest group 0 (omega arith))

  -- The writes behind the group: two paddings, and the NUL.
  store_2 :
      5 ≤ length rest
      → store (some (pre ++ (group ++ drop 4 rest))) (length pre + 2) (b'=' ∷ [])
        ≡ some (some (pre ++ (q₀ ∷ q₁ ∷ b'=' ∷ q₃ ∷ drop 4 rest)))
  store_2 room =
      store_behind pre (group ++ drop 4 rest) (b'=' ∷ []) 2 (omega (arith, length-drop 4 rest))

  store_3 :
      5 ≤ length rest
      → store (some (pre ++ (group ++ drop 4 rest))) (length pre + 3) (b'=' ∷ [])
        ≡ some (some (pre ++ (q₀ ∷ q₁ ∷ q₂ ∷ b'=' ∷ drop 4 rest)))
  store_3 room =
      store_behind pre (group ++ drop 4 rest) (b'=' ∷ []) 3 (omega (arith, length-drop 4 rest))

  store_4 :
      5 ≤ length rest
      → store (some (pre ++ (group ++ drop 4 rest))) (length pre + 4) (0 ∷ [])
        ≡ some (some (pre ++ (group ++ 0 ∷ drop 5 rest)))
  store_4 room =
      rw (drop-drop 1 4 rest) at
        (store_behind pre (group ++ drop 4 rest) (0 ∷ []) 4 (omega (arith, length-drop 4 rest)))

module _ (pre rest : List ℕ) (a b c i : ℕ) where
  abbrev pub pending : Encoder
  pending = record { i = i; c = a ∷ b ∷ c ∷ []; out_len = length pre; out = some (pre ++ rest) }

module _ (pre rest : List ℕ) (q₀ q₁ q₂ q₃ a b c i : ℕ) (room : 5 ≤ length rest) where
  -- The end of the input, after a whole group and after one or two bytes of one.
  pub finish_full :
      encode_3bytes a (some b) (some c) ≡ q₀ ∷ q₁ ∷ q₂ ∷ q₃ ∷ []
      → i % 3 ≡ 0
      → finish (pending pre rest a b c i)
        ≡ some (length pre, some (pre ++ (q₀ ∷ q₁ ∷ q₂ ∷ q₃ ∷ 0 ∷ drop 5 rest)))
  unfolding finish encode_c
  finish_full enc full =
      ground
        (arith, copy_behind pre rest q₀ q₁ q₂ q₃ (omega arith), store_4 pre rest q₀ q₁ q₂ q₃ room)

  pub finish_one :
      encode_3bytes a (some 0) (some 0) ≡ q₀ ∷ q₁ ∷ q₂ ∷ q₃ ∷ []
      → i % 3 ≡ 1
      → finish (pending pre rest a b c i)
        ≡ some (length pre + 2, some (pre ++ (q₀ ∷ q₁ ∷ b'=' ∷ b'=' ∷ 0 ∷ drop 5 rest)))
  unfolding finish encode_c
  finish_one enc one = rw (
    one,
    enc,
    copy_behind pre rest q₀ q₁ q₂ q₃ (omega arith),
    store_2 pre rest q₀ q₁ q₂ q₃ room,
    store_3 pre rest q₀ q₁ b'=' q₃ room,
    store_4 pre rest q₀ q₁ b'=' b'=' room,
  )

  pub finish_two :
      encode_3bytes a (some b) (some 0) ≡ q₀ ∷ q₁ ∷ q₂ ∷ q₃ ∷ []
      → i % 3 ≡ 2
      → finish (pending pre rest a b c i)
        ≡ some (length pre + 3, some (pre ++ (q₀ ∷ q₁ ∷ q₂ ∷ b'=' ∷ 0 ∷ drop 5 rest)))
  unfolding finish encode_c
  finish_two enc two = ground (
    arith,
    copy_behind pre rest q₀ q₁ q₂ q₃ (omega arith),
    store_3 pre rest q₀ q₁ q₂ q₃ room,
    store_4 pre rest q₀ q₁ q₂ b'=' room,
  )

pub group_two :
    (x y : ℕ)
    → x < 256
    → y < 256
    → encode_3bytes x (some y) (some 0)
      ≡ letter (x / 4) ∷ letter (x % 4 * 16 + y / 16) ∷ letter (y % 16 * 4) ∷ letter 0 ∷ []
group_two x y hx hy =
    let e : y % 16 * 4 + 0 / 64 ≡ y % 16 * 4 = omega arith in
    rw e at (encode_3bytes_lem x y 0 hx hy (omega arith))

pub group_one :
    (x : ℕ)
    → x < 256
    → encode_3bytes x (some 0) (some 0)
      ≡ letter (x / 4) ∷ letter (x % 4 * 16) ∷ letter 0 ∷ letter 0 ∷ []
group_one x hx =
    let e : x % 4 * 16 + 0 / 16 ≡ x % 4 * 16 = omega arith in
    rw e at (group_two x 0 hx (omega arith))

-- One round between two groups: the byte is stored into the array.
pub encode_loop-keep :
    (x : ℕ) (xs : List ℕ) (e : Encoder)
    → (e.i == 0) ≡ true ⊎ (e.i % 3 == 0) ≡ false
    → encode_loop (x ∷ xs) e ≡ encode_loop xs (record e { c = set e.c (e.i % 3) x; i = e.i + 1 })
unfolding encode_loop
encode_loop-keep x xs e (inl h) = ground arith
encode_loop-keep x xs e (inr h) = ground arith

-- One round at the start of a group, but the first: the group before it is written.
pub encode_loop-flush :
    (x : ℕ) (xs pre rest : List ℕ) (q₀ q₁ q₂ q₃ a b c i : ℕ)
    → 4 ≤ length rest
    → encode_3bytes a (some b) (some c) ≡ q₀ ∷ q₁ ∷ q₂ ∷ q₃ ∷ []
    → i % 3 ≡ 0
    → 0 < i
    → encode_loop (x ∷ xs) (pending pre rest a b c i)
      ≡ encode_loop xs (pending (pre ++ (q₀ ∷ q₁ ∷ q₂ ∷ q₃ ∷ [])) (drop 4 rest) x b c (i + 1))
unfolding encode_loop encode_c
encode_loop-flush x xs pre rest q₀ q₁ q₂ q₃ a b c i room enc full pos = ground (
  arith,
  copy_behind pre rest q₀ q₁ q₂ q₃ room,
  length-append pre (q₀ ∷ q₁ ∷ q₂ ∷ q₃ ∷ []),
  append_assoc pre (q₀ ∷ q₁ ∷ q₂ ∷ q₃ ∷ []) (drop 4 rest),
)

pub encode_loop-end : (e : Encoder) → encode_loop [] e ≡ some e
unfolding encode_loop
encode_loop-end e = refl

module _ (y : ℕ) (r pre rest : List ℕ) (a b c i : ℕ) where
  pub keep_first :
      i ≡ 0
      → encode_loop (y ∷ r) (pending pre rest a b c i)
        ≡ encode_loop r (pending pre rest y b c (i + 1))
  keep_first h =
      ground (arith, encode_loop-keep y r (pending pre rest a b c i) (inl (ground arith)))

  pub keep_second :
      i % 3 ≡ 1
      → encode_loop (y ∷ r) (pending pre rest a b c i)
        ≡ encode_loop r (pending pre rest a y c (i + 1))
  keep_second h =
      ground (arith, encode_loop-keep y r (pending pre rest a b c i) (inr (ground arith)))

  pub keep_third :
      i % 3 ≡ 2
      → encode_loop (y ∷ r) (pending pre rest a b c i)
        ≡ encode_loop r (pending pre rest a b y (i + 1))
  keep_third h =
      ground (arith, encode_loop-keep y r (pending pre rest a b c i) (inr (ground arith)))
