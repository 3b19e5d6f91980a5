-- ===== src/Hooks/Output.antt =====
-- What is written through the hooks (gpsee_hookable_io.c).
use mathlib.Core.Option.{none-ne-some}
use gpsee.Base.{
  Option-cases, ℕ, ◌≤◌, ◌<◌, ◌≡◌, ◌≢◌, refl, sym, ap, ◌∙◌, true, false, List, Option, none, some,
  arith, leb, ◌⊎◌, inl, inr, Bool-cases, ◌==◌, length,
}
use native.Mathlib.Decide.{ℕ_discrete}
use gpsee.Platform.{Platform}
use gpsee.Util.{◌>>=◌}
use gpsee.Hooks.{
  Hook, UserIo, Answer, threw, other, negative, integer, text, Host, hook_at, fwrite_js,
  fwrite_hook, hook_file_descriptor,
}
use gpsee.Hooks.Table.{IsVoid, IsSound, IsRealloc, hook_file_descriptor-IsSound}

module _ {W : Type 0} (p : Platform W) (h : Host W) (monitor : ℕ) where
  pub fwrite_hook-hook_at :
      (fd size nitems : ℕ) (s : List ℕ) (io : UserIo) (hook : Hook) (w : W)
      → fd < io.hooks_len
      → hook_at fd io ≡ some hook
      → hook.output ≢ h.void
      → h.throwing (p.enter monitor w) ≡ false
      → fwrite_hook p h monitor fd size nitems s io w ≡ (
          fwrite_js p h monitor hook.realm hook.output s (p.enter monitor w) >>= λ (n, w₂).
          some (n, p.exit monitor w₂))
  unfolding fwrite_hook
  fwrite_hook-hook_at fd size nitems s io hook w inside at set_up quiet =
      let in_table : leb io.hooks_len fd ≡ false = ground (arith, inside) in
      let is_set : (hook.output == h.void) ≡ false = ground (arith, set_up) in
      rw (in_table, at, is_set, quiet)

  fwrite_hook_alike :
      (fd size nitems : ℕ) (s : List ℕ) (io io' : UserIo) (w : W)
      → fd < io.hooks_len
      → fd < io'.hooks_len
      → hook_at fd io' ≡ hook_at fd io
      → fwrite_hook p h monitor fd size nitems s io' w
        ≡ fwrite_hook p h monitor fd size nitems s io w
  unfolding fwrite_hook
  fwrite_hook_alike fd size nitems s io io' w inside inside' same =
      let in_table : leb io.hooks_len fd ≡ false = ground (arith, inside) in
      let in_table' : leb io'.hooks_len fd ≡ false = ground (arith, inside') in
      rw (in_table, in_table', same)

  -- The bytes that a write reports for what the hook answers, and the world that it leaves.
  abbrev pub accepted : List ℕ → Answer → ℕ
  accepted s threw = 0
  accepted s other = length s
  accepted s negative = 0
  accepted s (integer n) = n
  accepted s (text t) = length s

  abbrev pub settled : Answer → W → W
  settled threw w = h.report w
  settled other w = w
  settled negative w = w
  settled (integer n) w = w
  settled (text t) w = w

  -- The call of the hook within the monitor, and what comes of it.
  abbrev pub hooked_write : ℕ → ℕ → List ℕ → W → ℕ × W
  hooked_write realm output s w =
      let (answer, w₁) = h.call realm output s (p.enter monitor w) in
      (accepted s answer, p.exit monitor (settled answer w₁))

  answered :
      (s : List ℕ) (answer : Answer) (w : W)
      → (elim answer as (λ _. Option (ℕ × W)) [
        | threw ↦ some (0, h.report w)
        | other ↦ some (length s, w)
        | negative ↦ some (0, w)
        | integer n ↦ some (n, w)
        | text t ↦ some (length s, w)
      ])
        ≡ some (accepted s answer, settled answer w)
  answered s threw w = refl
  answered s other w = refl
  answered s negative w = refl
  answered s (integer n) w = refl
  answered s (text t) w = refl

  fwrite_js-hooked :
      (realm output : ℕ) (s : List ℕ) (w : W)
      → realm ≢ 0
      → h.rooted (p.enter monitor w) ≡ true
      → h.string s (p.enter monitor w) ≡ true
      → (fwrite_js p h monitor realm output s (p.enter monitor w) >>= λ (n, w₂).
          some (n, p.exit monitor w₂))
        ≡ some (hooked_write realm output s w)
  unfolding fwrite_js
  fwrite_js-hooked realm output s w live rooted string =
      let there : (realm == 0) ≡ false = ground (arith, live) in
      let (answer, w₁) = h.call realm output s (p.enter monitor w) in
      rw (fwrite_js, rooted, string, there)
        (ap (λ o. o >>= λ (n, w₂). some (n, p.exit monitor w₂)) (answered s answer w₁))

  -- A write behind the slots of two tables goes to stdio.
  fwrite_hook-beyond :
      (i size nitems : ℕ) (s : List ℕ) (io : UserIo) (w : W)
      → io.hooks_len ≤ i
      → fwrite_hook p h monitor i size nitems s io w
        ≡ some (h.write i size nitems s (p.exit monitor (p.enter monitor w)))
  unfolding fwrite_hook
  fwrite_hook-beyond i size nitems s io w le =
      let out : leb io.hooks_len i ≡ true = ground (arith, le) in rw (fwrite_hook, out) refl

  fwrite_hook-void :
      (i size nitems : ℕ) (s : List ℕ) (io : UserIo) (v : Hook) (w : W)
      → i < io.hooks_len
      → hook_at i io ≡ some v
      → v.output ≡ h.void
      → fwrite_hook p h monitor i size nitems s io w
        ≡ some (h.write i size nitems s (p.exit monitor (p.enter monitor w)))
  unfolding fwrite_hook
  fwrite_hook-void i size nitems s io v w lt at void =
      let inside : leb io.hooks_len i ≡ false = ground (arith, lt) in
      let none_set : (v.output == h.void) ≡ true = ground (arith, void) in
      rw (fwrite_hook, inside, at, none_set) refl

  first_table :
      (fd i size nitems : ℕ) (s : List ℕ) (io io' : UserIo) (w : W)
      → io.hooks_len ≤ i
      → i ≢ fd
      → ((j : ℕ) → j < io'.hooks_len → j ≢ fd → IsVoid h.void (hook_at j io'))
      → fwrite_hook p h monitor i size nitems s io' w ≡ fwrite_hook p h monitor i size nitems s io w
  first_table fd i size nitems s io io' w le ne first = elim (Bool-cases (leb io'.hooks_len i)) [
    | inl g ↦
        fwrite_hook-beyond i size nitems s io' w (ground (arith, g))
        ∙ sym (fwrite_hook-beyond i size nitems s io w le)
    | inr g ↦
        let lt : i < io'.hooks_len = ground (arith, g) in
        let (v, at, void) = first i lt ne in
        fwrite_hook-void i size nitems s io' v w lt at void
        ∙ sym (fwrite_hook-beyond i size nitems s io w le)
  ]

  other_descriptor :
      (fd i size nitems : ℕ) (s : List ℕ) (io io' : UserIo) (w : W)
      → io.hooks_len ≤ io'.hooks_len
      → ((j : ℕ) → j < io.hooks_len → j ≢ fd → hook_at j io' ≡ hook_at j io)
      → (io.hooks ≡ none → (j : ℕ) → j < io'.hooks_len → j ≢ fd → IsVoid h.void (hook_at j io'))
      → (i ≡ fd)
        ⊎ ((io.hooks ≢ none) × (io.hooks_len ≤ i))
        ⊎ (fwrite_hook p h monitor i size nitems s io' w
            ≡ fwrite_hook p h monitor i size nitems s io w)
  other_descriptor fd i size nitems s io io' w grown kept first = elim (ℕ_discrete i fd) [
    | yes e ↦ inl e
    | no ne ↦ elim (Bool-cases (leb io.hooks_len i)) [
      | inl g ↦
          let le : io.hooks_len ≤ i = ground (arith, g) in
          elim (Option-cases io.hooks) [
            | inl e ↦ inr (inr (first_table fd i size nitems s io io' w le ne (first e)))
            | inr (hooks, e) ↦ inr (inl (λ d. none-ne-some _ (sym d ∙ e), le))
          ]
      | inr g ↦
          let lt : i < io.hooks_len = ground (arith, g) in
          inr (
            inr (
              fwrite_hook_alike i size nitems s io io' w lt (omega (arith, lt, grown))
                (kept i lt ne)))
    ]
  ]

  -- Behind a hookFileDescriptor that JS_realloc serves, what is written to the descriptor goes to the
  -- output hook of its realm, within the monitor: an integer that it returns is the result, but 0 for
  -- one below 0; an exception is reported and makes 0, and any other value the length. A write to
  -- another descriptor does what it did before, if there was no table yet or it had a slot for the
  -- descriptor. No exception is pending,
  -- the hook is not JSVAL_VOID and the realm not NULL, and the engine gives a root scope and the string.
  pub fwrite_hook-hook_file_descriptor :
      (realloc : Option (List Hook) → ℕ → Option (List Hook))
      → IsRealloc realloc
      → (fd input output realm i size nitems : ℕ) (s : List ℕ) (io : UserIo) (w : W) → fd < 3
      → IsSound io
      → output ≢ h.void
      → realm ≢ 0
      → h.throwing (p.enter monitor w) ≡ false
      → h.rooted (p.enter monitor w) ≡ true
      → h.string s (p.enter monitor w) ≡ true
      → (io' : UserIo) × (hook_file_descriptor h.void realloc fd input output realm io
          ≡ some (true, io'))
        × IsSound io'
        × (fwrite_hook p h monitor fd size nitems s io' w ≡ some (hooked_write realm output s w))
        × ((i ≡ fd)
            ⊎ ((io.hooks ≢ none) × (io.hooks_len ≤ i))
            ⊎ (fwrite_hook p h monitor i size nitems s io' w
                ≡ fwrite_hook p h monitor i size nitems s io w))
  fwrite_hook-hook_file_descriptor realloc r fd input output realm i size nitems s io w std sound
        set_up live quiet rooted string =
      let (io', done, sound', hooked, inside, grown, at, kept, first) =
        hook_file_descriptor-IsSound h.void realloc r fd input output realm io std sound in
      let hook : Hook = record { realm = realm; input = input; output = output } in
      (
        io',
        done,
        sound',
        fwrite_hook-hook_at fd size nitems s io' hook w inside at set_up quiet
            ∙ fwrite_js-hooked realm output s w live rooted string,
        other_descriptor fd i size nitems s io io' w grown kept first,
      )
