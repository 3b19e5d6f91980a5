-- ===== src/Hooks/Faults.antt =====
-- Where what is written reads through NULL or behind the table of hooks (gpsee_hookable_io.c).
use gpsee.Base.{
  ℕ, zero, suc, ◌+◌, min, ◌≤◌, ◌<◌, ◌≡◌, ◌≢◌, refl, sym, ap, ◌∙◌, true, false, List, [], ◌∷◌, ◌++◌,
  Option, none, some, arith, leb, inl, inr, Bool-cases, ◌==◌, length, get_elem?, drop, replicate,
}
use gpsee.Platform.{Platform}
use gpsee.Util.{◌>>=◌}
use gpsee.Hooks.{
  Hook, UserIo, Host, hook_at, fwrite_js, fwrite_hook, hook_file_descriptor, clear_hooks,
}
use gpsee.Hooks.Table.{hook_file_descriptor_refused}
use gpsee.Hooks.Output.{fwrite_hook-hook_at}

module _ {W : Type 0} (p : Platform W) (h : Host W) (monitor : ℕ) where
  get_elem?_past : (xs : List Hook) (i : ℕ) → length xs ≤ i → get_elem? xs i ≡ none
  get_elem?_past [] i le = refl
  get_elem?_past (x ∷ xs) zero le = absurd (omega (arith, le))
  get_elem?_past (x ∷ xs) (suc i) le = get_elem?_past xs i (omega (arith, le))

  -- When JS_realloc fails for the hooks of a standard descriptor behind a table, hookFileDescriptor
  -- answers false, and the next write to that descriptor reads behind the table.
  pub fwrite_hook_refused :
      (realloc : Option (List Hook) → ℕ → Option (List Hook))
      (fd input output realm len size nitems : ℕ) (s : List ℕ) (hooks : List Hook) (w : W)
      → fd < 3
      → len ≤ length hooks
      → length hooks ≤ fd
      → realloc (some hooks) (1 + fd) ≡ none
      → (io' : UserIo) × (hook_file_descriptor h.void realloc fd input output realm
            (record { hooks = some hooks; hooks_len = len; hooked = true })
          ≡ some (false, io'))
        × (fwrite_hook p h monitor fd size nitems s io' w ≡ none)
  unfolding fwrite_hook hook_at
  fwrite_hook_refused realloc fd input output realm len size nitems s hooks w std sound short
        refused =
      let io : UserIo = record { hooks = some hooks; hooks_len = len; hooked = true } in
      let same : 1 + min fd 2 ≡ 1 + fd = omega (arith, std) in
      let inside : leb (1 + min fd 2) fd ≡ false = ground (arith, std) in
      (
        record io { hooks_len = 1 + min fd 2 },
        hook_file_descriptor_refused h.void realloc fd input output realm io
            (ap (λ (n : ℕ). realloc (some hooks) n) same ∙ refused)
            (omega (arith, std, sound, short)),
        rw (inside, get_elem?_past hooks fd short),
      )

  get_elem?-replicate :
      (n i : ℕ) (v : Hook) (xs : List Hook) → i < n → get_elem? (replicate n v ++ xs) i ≡ some v
  get_elem?-replicate zero i v xs lt = absurd (omega (arith, lt))
  get_elem?-replicate (suc n) zero v xs lt = refl
  get_elem?-replicate (suc n) (suc i) v xs lt = get_elem?-replicate n i v xs (omega (arith, lt))

  fwrite_js_null : (output : ℕ) (s : List ℕ) (w : W) → fwrite_js p h monitor 0 output s w ≡ none
  unfolding fwrite_js
  fwrite_js_null output s w = elim (Bool-cases (h.rooted w)) [
    | inr e ↦ rw (fwrite_js, e) refl
    | inl e ↦ elim (Bool-cases (h.string s w)) [
      | inr d ↦ rw (fwrite_js, e, d) refl
      | inl d ↦ rw (fwrite_js, e, d) refl
    ]
  ]

  -- Behind the destruction of any realm, a write to each descriptor of a table, hooked or not, reads
  -- the global object of a realm that is NULL, as a hook of 0 is not JSVAL_VOID. No exception is pending.
  pub fwrite_hook-clear_hooks :
      (io : UserIo) (hooks : List Hook) (fd size nitems : ℕ) (s : List ℕ) (w : W)
      → io.hooks ≡ some hooks
      → io.hooks_len ≤ length hooks
      → fd < io.hooks_len
      → h.void ≢ 0
      → h.throwing (p.enter monitor w) ≡ false
      → (io' : UserIo) × (clear_hooks io ≡ some io')
        × (fwrite_hook p h monitor fd size nitems s io' w ≡ none)
  unfolding clear_hooks hook_at
  fwrite_hook-clear_hooks io hooks fd size nitems s w table sound lt void quiet =
      let zero_hook : Hook = record { realm = 0; input = 0; output = 0 } in
      let block : List Hook = replicate io.hooks_len zero_hook ++ drop io.hooks_len hooks in
      let has_some : (io.hooks_len == 0) ≡ false = ground (arith, lt) in
      let fits : leb io.hooks_len (length hooks) ≡ true = ground (arith, sound) in
      let io' : UserIo = record io { hooks = some block } in
      (
        io',
        simp (has_some, table, fits),
        fwrite_hook-hook_at p h monitor fd size nitems s io' zero_hook w lt
              (get_elem?-replicate io.hooks_len fd zero_hook (drop io.hooks_len hooks) lt)
              (λ e. void (sym e)) quiet
            ∙ ap (λ r. r >>= λ (n, w₂). some (n, p.exit monitor w₂))
                (fwrite_js_null 0 s (p.enter monitor w)),
      )
