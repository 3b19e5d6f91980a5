-- ===== src/Xdr/Session.antt =====
-- A session of an encoding XDR file and one of a decoding XDR file (gpsee_xdrfile.c).
use mathlib.Core.List.{append-nil, append_assoc}
use gpsee.Base.{
  ℕ, ◌+◌, ◌^◌, ◌≤◌, ◌<◌, ◌≡◌, refl, sym, subst, Bool, true, false, List, [], ◌∷◌, ◌++◌, Option,
  none, some, arith, if◌then◌else◌, length, length-append,
}
use gpsee.Util.{◌>>=◌}
use gpsee.Xdr.{File, XdrFile, word, get32, getbytes, setbytes, set32, raw_chunk, finalize}
use gpsee.Xdr.Chunk.{IsGranted}
use gpsee.Xdr.Stream.{ended}
use gpsee.Xdr.Writing.{
  IsWriter, setbytes-IsWriter, write_chunk, write_chunk-IsWriter, commit_raw-IsIdle,
}
use gpsee.Xdr.Reading.{peek}

-- One call of the engine: a uint32, some bytes, a raw chunk.
pub data Item : Type 0 where
  number : ℕ → Item
  bytes : List ℕ → Item
  chunk : List ℕ → Item

unfoldable pub payload : Item → List ℕ
payload (number v) = word v
payload (bytes s) = s
payload (chunk s) = s

unfoldable pub payloads : List Item → List ℕ
payloads [] = []
payloads (i ∷ items) = payload i ++ payloads items

-- The numbers and the lengths fit their types, and a chunk has a byte.
pub data IsItem : Item → Type 0 where
  number_fits : (v : ℕ) → v < 2 ^ 32 → IsItem (number v)
  bytes_fit : (s : List ℕ) → length s < 2 ^ 32 → IsItem (bytes s)
  chunk_fits : (s : List ℕ) → 0 < length s → length s < 2 ^ 31 → IsItem (chunk s)

pub data AllItems : List Item → Type 0 where
  nil : AllItems []
  cons : (i : Item) (items : List Item) → IsItem i → AllItems items → AllItems (i ∷ items)

module _ (allocated : ℕ → Option (List ℕ)) where
  unfoldable pub write_item : Item → XdrFile → Option (Bool × XdrFile)
  write_item (number v) x = set32 v x
  write_item (bytes s) x = setbytes s x
  write_item (chunk s) x = write_chunk allocated s x

  unfoldable pub write_items : List Item → XdrFile → Option (Bool × XdrFile)
  write_items [] x = some (true, x)
  write_items (i ∷ items) x =
      write_item i x >>= λ (ok, x'). if ok then write_items items x' else some (false, x')

  -- The session, to the stream that `finalize` leaves.
  unfoldable pub write_session : List Item → XdrFile → Option (Bool × Option File)
  write_session items x =
      write_items items x >>= λ (ok, x'). finalize x' >>= λ (f, closed, x''). some (ok, f)

  -- A call of the same kind and length.
  unfoldable pub read_item : Item → XdrFile → Option (Option Item × XdrFile)
  read_item (number v) x =
      get32 x >>= λ (r, x'). some (elim r [ none ↦ none | some w ↦ some (number w) ], x')
  read_item (bytes s) x =
      getbytes (length s) x >>= λ (ok, t, x'). some (if ok then some (bytes t) else none, x')
  read_item (chunk s) x = raw_chunk allocated (length s) x >>= λ (p, x').
      some (elim (peek (length s) p x') [ none ↦ none | some t ↦ some (chunk t) ], x')

  unfoldable pub read_items : List Item → XdrFile → Option (List Item × XdrFile)
  read_items [] x = some ([], x)
  read_items (i ∷ items) x = read_item i x >>= λ (r, x'). elim r [
    | none ↦ some ([], x')
    | some j ↦ read_items items x' >>= λ (js, x''). some (j ∷ js, x'')
  ]

module _ (allocated : ℕ → Option (List ℕ)) (granted : IsGranted allocated) where
  write_item-IsWriter :
      (i : Item) (x : XdrFile) (text : List ℕ) (room : ℕ)
      → IsItem i
      → IsWriter x text room
      → length text + length (payload i) ≤ room
      → (x' : XdrFile) × (write_item allocated i x ≡ some (true, x'))
        × IsWriter x' (text ++ payload i) room
  unfolding write_item payload set32
  write_item-IsWriter i x text room (number_fits v lt) w wide =
      setbytes-IsWriter (word v) x text room w wide
  write_item-IsWriter i x text room (bytes_fit s lt) w wide = setbytes-IsWriter s x text room w wide
  write_item-IsWriter i x text room (chunk_fits s some_asked lt) w wide =
      write_chunk-IsWriter allocated granted s x text room w wide some_asked lt

  write_items-IsWriter :
      (items : List Item) (x : XdrFile) (text : List ℕ) (room : ℕ)
      → AllItems items
      → IsWriter x text room
      → length text + length (payloads items) ≤ room
      → (x' : XdrFile) × (write_items allocated items x ≡ some (true, x'))
        × IsWriter x' (text ++ payloads items) room
  unfolding write_items payloads
  write_items-IsWriter items x text room nil w wide =
      (x, refl, subst (λ (t : List ℕ). IsWriter x t room) (sym (append-nil text)) w)
  write_items-IsWriter _ x text room (cons i items good all) w wide =
      let len = length-append (payload i) (payloads items) in
      let (x₁, done, w₁) = write_item-IsWriter i x text room good w (omega (arith, wide, len)) in
      let (x₂, rest, w₂) =
        write_items-IsWriter items x₁ (text ++ payload i) room all w₁
          (omega (arith, wide, len, length-append text (payload i))) in
      (
        x₂,
        rw (done) rest,
        subst (λ (t : List ℕ). IsWriter x₂ t room) (append_assoc text (payload i) (payloads items))
            w₂,
      )

  pub write_session-IsWriter :
      (items : List Item) (x : XdrFile) (room : ℕ)
      → AllItems items
      → IsWriter x [] room
      → length (payloads items) ≤ room
      → write_session allocated items x ≡ some (true, some (ended (payloads items) room))
  unfolding write_session finalize
  write_session-IsWriter items x room all w wide =
      let (x₁, done, w₁) = write_items-IsWriter items x [] room all w (omega (arith, wide)) in
      let (x₂, rest, i) = commit_raw-IsIdle x₁ (payloads items) room w₁ in rw (done, rest, i.all)
