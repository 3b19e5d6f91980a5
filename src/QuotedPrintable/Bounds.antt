-- ===== src/QuotedPrintable/Bounds.antt =====
-- The quoted-printable codec (modules/binary/base64.c) on any input: what the encoder writes fits its
-- block, and the decoder ends.
use gpsee.Base.{
  ℕ, ◌+◌, ◌/◌, ◌<◌, ◌≤◌, ◌≡◌, ◌≢◌, refl, ◌⊎◌, inl, inr, Bool, List, [], ◌∷◌, ◌++◌, Option, none,
  some, arith, leb, ◌==◌, Bool-cases, length, get_or, length-append,
}
use gpsee.Util.{size_sub}
use gpsee.QuotedPrintable.{
  qp_encode_byte, Buffer, append, make_room, break_line, encode_rounds, binary_to_qp_alloc,
}

length-qp_encode_byte :
    (force : Option (List ℕ)) (c next : ℕ) → length (qp_encode_byte force c next) ≤ 3
unfolding qp_encode_byte
length-qp_encode_byte force c next = ground arith

append_fits :
    (s : List ℕ) (b : Buffer)
    → length b.text + length s ≤ b.alloc
    → append s b ≡ some (record b { text = b.text ++ s })
unfolding append
append_fits s b room = ground arith

module _ (grants : ℕ → Bool) (force : Option (List ℕ)) where
  make_room_fits :
      (b : Buffer)
      → length b.text < b.alloc
      → (make_room grants force b ≡ none)
        ⊎ ((n : ℕ) × (make_room grants force b ≡ some (record b { alloc = n }))
            × (length b.text + 8 < n))
  unfolding make_room
  make_room_fits b room = elim (Bool-cases (leb b.alloc (length b.text + 8))) [
    | inr h ↦ inr (b.alloc, rw (h, make_room), ground (arith, h))
    | inl h ↦ elim (Bool-cases (grants (b.alloc + 256))) [
      | inr g ↦ inl (rw (h, make_room, g))
      | inl g ↦ inr (b.alloc + 256, rw (h, make_room, g), omega (arith, room))
    ]
  ]

  break_line_fits :
      (piece : List ℕ) (b : Buffer)
      → length b.text + 8 < b.alloc
      → (b' : Buffer) × (break_line grants force piece b ≡ some b')
        × (length b'.text ≤ length b.text + 3)
        × (b'.alloc ≡ b.alloc)
  unfolding break_line
  break_line_fits piece b room =
      let soft : List ℕ = b'=' ∷ b'\r' ∷ b'\n' ∷ [] in
      let fits = append_fits soft b (omega (arith, room)) in
      let long = length-append b.text soft in
      elim (Bool-cases (get_or piece 0 0 == b'\r')) [
        | inl h ↦ (record b { last_cr = length b.text + 2 }, rw (h, break_line), omega arith, refl)
        | inr h ↦ elim (Bool-cases (leb 75 (size_sub (length b.text) b.last_cr))) [
          | inr g ↦ (b, rw (h, break_line, g), omega arith, refl)
          | inl g ↦ (
            record b { text = b.text ++ soft; last_cr = length (b.text ++ soft) },
            rw (h, break_line, g, fits),
            omega (arith, long),
            refl,
          )
        ]
      ]

  encode_rounds_fits :
      (beyond : ℕ) (xs : List ℕ) (b : Buffer)
      → length b.text < b.alloc
      → (encode_rounds grants force beyond xs b ≡ some none)
        ⊎ ((b' : Buffer) × (encode_rounds grants force beyond xs b ≡ some (some b'))
            × (length b'.text < b'.alloc))
  unfolding encode_rounds
  encode_rounds_fits beyond [] b room = inr (b, refl, room)
  encode_rounds_fits beyond (c ∷ s) b room = elim (make_room_fits b room) [
    | inl h ↦ inl (rw (h, encode_rounds))
    | inr (n, h, more) ↦
        let piece = qp_encode_byte force c (get_or s 0 beyond) in
        let (b₂, broken, short, same) = break_line_fits piece (record b { alloc = n }) more in
        let small = length-qp_encode_byte force c (get_or s 0 beyond) in
        let fits = append_fits piece b₂ (omega (arith, short, same, small, more)) in
        let b₃ : Buffer = record b₂ { text = b₂.text ++ piece } in
        let left : length b₃.text < b₃.alloc =
          omega (arith, short, same, small, more, length-append b₂.text piece) in
        rw (h, encode_rounds, broken, fits) (encode_rounds_fits beyond s b₃ left)
  ]

  -- On every input, whatever is forced and whichever blocks are refused, the encoder returns NULL or a
  -- text: it never writes behind its block, the NUL included.
  pub binary_to_qp_alloc-ne-none :
      (beyond : ℕ) (xs : List ℕ) → binary_to_qp_alloc grants force beyond xs ≢ none
  unfolding binary_to_qp_alloc
  binary_to_qp_alloc-ne-none beyond xs =
      let start = length xs + length xs / 10 in
      let b : Buffer = record { text = []; alloc = start; last_cr = 0 } in
      elim (Bool-cases (length xs == 0)) [
        | inl h ↦ ground (arith, h)
        | inr h ↦ elim (encode_rounds_fits beyond xs b (ground (arith, h))) [
          | inl e ↦ ground (arith, h, e)
          | inr (b', e, room) ↦ ground (arith, h, e, append_fits (0 ∷ []) b' (omega (arith, room)))
        ]
      ]
