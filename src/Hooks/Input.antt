-- ===== src/Hooks/Input.antt =====
-- What is read through the hooks (gpsee_hookable_io.c).
use gpsee.Base.{
  ℕ, ◌+◌, ◌-◌, ◌*◌, min, ◌≤◌, ◌<◌, ◌≡◌, ◌≢◌, refl, sym, ap, ◌∙◌, ◌⊎◌, inl, inr, true, false, List,
  ◌∷◌, ◌++◌, Option, none, some, arith, leb, ◌==◌, Bool-cases, length, take, drop, length-append,
  length-drop,
}
use mathlib.Core.List.{append_assoc}
use gpsee.Platform.{Platform}
use gpsee.Util.{poke}
use gpsee.Util.Copy.{poke_behind}
use gpsee.Base.{length-take, take_all, drop_front}
use gpsee.Hooks.{
  Hook, UserIo, Answer, threw, other, negative, integer, text, Host, hook_at, input_answer,
  reported, copy_in, fgets_hook, fread_hook,
}

module _ {W : Type 0} (p : Platform W) (h : Host W) (monitor : ℕ) where
  -- stdio's fread gives no more bytes than were asked for.
  abbrev pub IsReading : Type 0
  IsReading = (fd size nitems : ℕ) (w : W) → length (h.read fd size nitems w).1 ≤ size * nitems

  copy_in_fits :
      (s block : List ℕ)
      → length s ≤ length block
      → (block' : List ℕ) × (copy_in p h monitor s block ≡ some block')
        × (length block' ≡ length block)
  unfolding copy_in
  copy_in_fits s block le =
      let fits : leb (length s) (length block) ≡ true = ground (arith, le) in
      (
        s ++ drop (length s) block,
        rw (fits),
        omega (arith, le, length-append s (drop (length s) block), length-drop (length s) block),
      )

  -- The descriptor is not in the table, has no output hook, or hooks of a realm.
  abbrev pub IsLive : ℕ → UserIo → Type 0
  IsLive fd io =
      (io.hooks_len ≤ fd)
      ⊎ ((fd < io.hooks_len)
          × (hook : Hook) × (hook_at fd io ≡ some hook)
          × ((hook.output ≡ h.void) ⊎ (hook.realm ≢ 0)))

  input_answer_found :
      (fd : ℕ) (io : UserIo) (w : W)
      → IsLive fd io
      → (a : Option Answer) × (w' : W) × (input_answer p h monitor fd io w ≡ some (a, w'))
  unfolding input_answer
  input_answer_found fd io w (inl past) =
      let out : leb io.hooks_len fd ≡ true = ground (arith, past) in
      (none, p.exit monitor (p.enter monitor w), rw (out))
  input_answer_found fd io w (inr (lt, hook, at, inl unset)) =
      let inside : leb io.hooks_len fd ≡ false = ground (arith, lt) in
      let is_void : (hook.output == h.void) ≡ true = ground (arith, unset) in
      (none, p.exit monitor (p.enter monitor w), rw (inside, at, is_void))
  input_answer_found fd io w (inr (lt, hook, at, inr live)) =
      let inside : leb io.hooks_len fd ≡ false = ground (arith, lt) in
      let has_realm : (hook.realm == 0) ≡ false = ground (arith, live) in
      elim (Bool-cases (hook.output == h.void)) [
        | inl e ↦ (none, p.exit monitor (p.enter monitor w), rw (inside, at, e))
        | inr e ↦ (
          some (h.ask hook.realm hook.input (p.enter monitor w)).0,
          p.exit monitor (
              reported p h monitor (h.ask hook.realm hook.input (p.enter monitor w)).0
                (h.ask hook.realm hook.input (p.enter monitor w)).1),
          rw (inside, at, e, has_realm),
        )
      ]

  fread_text :
      (n : ℕ) (t block : List ℕ)
      → n ≤ length block
      → n ≤ length t
      → (block' : List ℕ) × (copy_in p h monitor (take n t) block ≡ some block')
        × (length block' ≡ length block)
  fread_text n t block room le =
      copy_in_fits (take n t) block (omega (arith, room, length-take n t le))

  -- Whatever the hook answers, `uio_fread_hook` returns, and writes no more than was asked for: what is
  -- behind in the block stays there, as far as its length tells.
  pub fread_hook_fits :
      (fd size nitems : ℕ) (block : List ℕ) (io : UserIo) (w : W)
      → IsReading
      → IsLive fd io
      → size * nitems ≤ length block
      → (n : ℕ) × (block' : List ℕ) × (w' : W) × (fread_hook p h monitor fd size nitems block io w
          ≡ some (n, block', w'))
        × (length block' ≡ length block)
  unfolding fread_hook
  fread_hook_fits fd size nitems block io w reading live room =
      let (a, w₁, found) = input_answer_found fd io w live in go a w₁ found
    where
      go :
          (a : Option Answer) (w₁ : W)
          → input_answer p h monitor fd io w ≡ some (a, w₁)
          → (n : ℕ) × (block' : List ℕ) × (w' : W) × (fread_hook p h monitor fd size nitems block io
                w
              ≡ some (n, block', w'))
            × (length block' ≡ length block)
      go none w₁ found =
          let (n, s, w₂) = h.read fd size nitems w₁ in
          let (b, copied, len) =
            copy_in_fits s block (omega (arith, room, reading fd size nitems w₁)) in
          (n, b, w₂, rw (found, copied), len)
      go (some (text t)) w₁ found =
          let n = min (size * nitems) (length t) in
          let (b, copied, len) = fread_text n t block (omega (arith, room)) (omega arith) in
          (n, b, w₁, rw (found, copied), len)
      go (some threw) w₁ found = (0, block, w₁, rw (found), refl)
      go (some other) w₁ found = (0, block, w₁, rw (found), refl)
      go (some negative) w₁ found = (0, block, w₁, rw (found), refl)
      go (some (integer n)) w₁ found = (0, block, w₁, rw (found), refl)

  poke_at :
      (pre rest : List ℕ) (n x c : ℕ)
      → n ≡ length pre
      → poke n c (pre ++ x ∷ rest) ≡ some (pre ++ c ∷ rest)
  poke_at pre rest n x c at =
      ap (λ (k : ℕ). poke k c (pre ++ x ∷ rest)) at ∙ poke_behind pre rest x c

  -- When an input hook answers with a text that is shorter than the buffer, `uio_fgets_hook` copies it and
  -- puts its NUL at the end of the buffer, so the bytes between stay what they were.
  pub fgets_hook_stale :
      (fd : ℕ) (t old between rest : List ℕ) (x : ℕ) (io : UserIo) (hook : Hook) (w w' : W)
      → fd < io.hooks_len
      → hook_at fd io ≡ some hook
      → hook.output ≢ h.void
      → hook.realm ≢ 0
      → h.ask hook.realm hook.input (p.enter monitor w) ≡ (text t, w')
      → length old ≡ length t
      → fgets_hook p h monitor fd
          (length t + length between + 1)
          (old ++ (between ++ x ∷ rest))
          io
          w
        ≡ some (true, (t ++ between) ++ 0 ∷ rest, p.exit monitor w')
  unfolding fgets_hook input_answer reported copy_in
  fgets_hook_stale fd t old between rest x io hook w w' lt at set_up live answer same =
      let inside : leb io.hooks_len fd ≡ false = ground (arith, lt) in
      let is_set : (hook.output == h.void) ≡ false = ground (arith, set_up) in
      let has_realm : (hook.realm == 0) ≡ false = ground (arith, live) in
      let all : min (length t + length between + 1 - 1) (length t) ≡ length t = omega arith in
      let last : length t + length between + 1 - 1 ≡ length (t ++ between) =
        omega (arith, length-append t between) in
      let block : List ℕ = old ++ (between ++ x ∷ rest) in
      let fits : leb (length t) (length block) ≡ true =
        ground (arith, same, length-append old (between ++ x ∷ rest)) in
      let behind : drop (length t) block ≡ between ++ x ∷ rest =
        ap (λ (k : ℕ). drop k block) (sym same) ∙ drop_front old (between ++ x ∷ rest) in
      let whole : t ++ (between ++ x ∷ rest) ≡ (t ++ between) ++ x ∷ rest =
        sym (append_assoc t between (x ∷ rest)) in
      rw (
        inside,
        at,
        is_set,
        has_realm,
        answer,
        all,
        take_all t,
        fits,
        behind,
        whole,
        poke_at (t ++ between) rest (length t + length between + 1 - 1) x 0 last,
        answer,
      )
