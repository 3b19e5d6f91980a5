-- ===== src/Module/Shutdown/Total.antt =====
-- The shutdown of the module system (gpsee_modules.c) ends and leaves no fini function unrun.
use gpsee.Base.{
  ℕ, zero, suc, ◌+◌, ◌≤◌, ◌<◌, ◌≡◌, ◌≢◌, refl, ◌∙◌, inl, inr, Bool, true, false, List, [], ◌∷◌,
  some, arith, ◌==◌, Bool-cases, if◌then◌else◌,
}
use gpsee.Module.{Splay, State, write, Fini, mark_unused}
use gpsee.Module.Memo.{unused}
use gpsee.Module.Shutdown.{fini_module, fini_modules, force_module, force_modules, shutdown_loop}

module _ {T W : Type 0} where
  -- How many of the handles have a fini function.
  unfoldable pub open_among : List ℕ → State T W → ℕ
  open_among [] s = 0
  open_among (p ∷ ps) s = (if (s.handles p).fini == 0 then 0 else 1) + open_among ps s

  -- Some fini functions may be gone, and the memo is the same.
  pub record Closer (s u : State T W) : Type 0 where
    pub memo : u.memo ≡ s.memo
    pub gone : (q : ℕ) → (s.handles q).fini ≡ 0 → (u.handles q).fini ≡ 0

  Closer-refl : (s : State T W) → Closer s s
  Closer-refl s = record { memo = refl; gone = λ q h. h }

  Closer-trans : (s u v : State T W) → Closer s u → Closer u v → Closer s v
  Closer-trans s u v a b = record { memo = b.memo ∙ a.memo; gone = λ q h. b.gone q (a.gone q h) }

  open_among-Closer :
      (ps : List ℕ) (s u : State T W) → Closer s u → open_among ps u ≤ open_among ps s
  unfolding open_among
  open_among-Closer [] s u c = omega arith
  open_among-Closer (p ∷ ps) s u c = ground (arith, c.gone p, open_among-Closer ps s u c)

  -- What the loop relies on: a fini function leaves the handles and the memo alone.
  abbrev pub IsQuiet : Fini T W → Type 0
  IsQuiet fini =
      (f x : ℕ) (force : Bool) (s : State T W)
      → ((fini f x force s).1.handles ≡ s.handles) × ((fini f x force s).1.memo ≡ s.memo)

  module _ (fini : Fini T W) (quiet : IsQuiet fini) (p : ℕ) where
    -- Without a fini function, only the other fields change.
    mark_unused_closed :
        (s : State T W)
        → (s.handles p).fini ≡ 0
        → mark_unused fini p s ≡ write p (unused (s.handles p)) s
    unfolding mark_unused
    mark_unused_closed s h = ground (arith, h)

    mark_unused-Closer : (s : State T W) → (s.handles p).fini ≡ 0 → Closer s (mark_unused fini p s)
    mark_unused-Closer s h =
        rw (mark_unused_closed s h) (record { memo = refl; gone = λ q e. ground arith })

    -- The fini function of the module is taken away.
    abbrev closed : State T W → State T W
    closed s = mark_unused fini p (write p (record (s.handles p) { fini = 0 }) s)

    closed-Closer : (s : State T W) → Closer s (closed s)
    closed-Closer s =
        let u = write p (record (s.handles p) { fini = 0 }) s in
        Closer-trans s u (closed s) (record { memo = refl; gone = λ q e. ground arith })
          (mark_unused-Closer u (ground arith))

    closed-fini : (s : State T W) → ((closed s).handles p).fini ≡ 0
    closed-fini s =
        let u = write p (record (s.handles p) { fini = 0 }) s in
        (mark_unused-Closer u (ground arith)).gone p (ground arith)

    called-Closer : (f x : ℕ) (force : Bool) (s : State T W) → Closer s (fini f x force s).1
    called-Closer f x force s = record {
      memo = (quiet f x force s).1;
      gone = λ q e. ground (arith, (quiet f x force s).0);
    }

  -- What a pass over the handles does: so many of them are left, at least, and there were, at most.
  pub record Passed (ps : List ℕ) (s : State T W) (r : ℕ × State T W) : Type 0 where
    pub closer : Closer s r.1
    pub least : open_among ps r.1 ≤ r.0
    pub most : r.0 ≤ open_among ps s

  module _ (fini : Fini T W) (quiet : IsQuiet fini) where
    fini_module-Passed : (p : ℕ) (s : State T W) → Passed (p ∷ []) s (fini_module fini p s)
    unfolding fini_module open_among
    fini_module-Passed p s =
        let h = s.handles p in
        elim (Bool-cases (h.fini == 0)) [
          | inl e ↦
              let c = mark_unused-Closer fini quiet p s (ground (arith, e)) in
              rw (e, fini_module)
                (record { closer = c; least = ground (arith, e, c.gone p); most = omega arith })
          | inr e ↦
              let s₁ = (fini h.fini h.exports false s).1 in
              let c = called-Closer fini quiet p h.fini h.exports false s in
              elim (Bool-cases (fini h.fini h.exports false s).0) [
                | inr d ↦
                    rw (e, fini_module, d)
                      (record { closer = c; least = ground arith; most = ground (arith, e) })
                | inl d ↦
                    rw (e, fini_module, d)
                      (record {
                        closer =
                            Closer-trans s s₁ (closed fini quiet p s₁) c
                              (closed-Closer fini quiet p s₁);
                        least = ground (arith, closed-fini fini quiet p s₁);
                        most = omega arith;
                      })
              ]
        ]

    fini_modules-Passed : (ps : List ℕ) (s : State T W) → Passed ps s (fini_modules fini ps s)
    unfolding fini_modules open_among
    fini_modules-Passed [] s = record {
      closer = Closer-refl s;
      least = omega arith;
      most = omega arith;
    }
    fini_modules-Passed (p ∷ ps) s =
        let (n, s₁) = fini_module fini p s in
        let (m, s₂) = fini_modules fini ps s₁ in
        let a = fini_module-Passed p s in
        let b = fini_modules-Passed ps s₁ in
        record {
          closer = Closer-trans s s₁ s₂ a.closer b.closer;
          least = ground (arith, a.least, b.least, b.closer.gone p);
          most = ground (arith, a.most, b.most, open_among-Closer ps s s₁ a.closer);
        }

    force_module-Closer : (p : ℕ) (s : State T W) → Closer s (force_module fini p s)
    unfolding force_module
    force_module-Closer p s =
        let h = s.handles p in
        let s₁ = (fini h.fini h.exports true s).1 in
        elim (Bool-cases (h.fini == 0)) [
          | inl e ↦ rw (e, force_module) (Closer-refl s)
          | inr e ↦
              rw (e, force_module)
                (Closer-trans s s₁ (closed fini quiet p s₁)
                  (called-Closer fini quiet p h.fini h.exports true s)
                  (closed-Closer fini quiet p s₁))
        ]

    force_module-fini : (p : ℕ) (s : State T W) → ((force_module fini p s).handles p).fini ≡ 0
    unfolding force_module
    force_module-fini p s =
        let h = s.handles p in
        let s₁ = (fini h.fini h.exports true s).1 in
        elim (Bool-cases (h.fini == 0)) [
          | inl e ↦ rw (e, force_module) (ground (arith, e))
          | inr e ↦ rw (e, force_module) (closed-fini fini quiet p s₁)
        ]

    force_modules-Passed : (ps : List ℕ) (s : State T W) → Passed ps s (0, force_modules fini ps s)
    unfolding force_modules open_among
    force_modules-Passed [] s = record {
      closer = Closer-refl s;
      least = omega arith;
      most = omega arith;
    }
    force_modules-Passed (p ∷ ps) s =
        let s₁ = force_module fini p s in
        let b = force_modules-Passed ps s₁ in
        record {
          closer = Closer-trans s s₁ (force_modules fini ps s₁) (force_module-Closer p s) b.closer;
          least = ground (arith, b.least, b.closer.gone p (force_module-fini p s));
          most = omega arith;
        }

module _ {T W : Type 0} (tree : Splay T) where
  -- How many modules of the memo have a fini function.
  abbrev pub open_modules : State T W → ℕ
  open_modules s = open_among (tree.nodes s.memo) s

module _ {T W : Type 0} (tree : Splay T) (fini : Fini T W) (quiet : IsQuiet fini)
    (gc : State T W → State T W) where
  -- The loop ends, and no module is left with a fini function.
  Ends : ℕ → ℕ → State T W → Type 0
  Ends fuel last s =
      (u : State T W) × (shutdown_loop tree fini gc fuel last s ≡ some u)
      × (open_modules tree u ≡ 0)

  module _ (collects : (s : State T W) → open_modules tree (gc s) ≤ open_modules tree s) where
    round-Ends :
        (fuel last : ℕ) (s : State T W)
        → ((n : ℕ) (u : State T W)
            → n ≤ open_modules tree s
            → n ≢ last
            → open_modules tree u ≤ n
            → Ends fuel n u)
        → Ends (suc fuel) last s
    unfolding shutdown_loop Ends
    round-Ends fuel last s rest =
        let r = fini_modules fini (tree.nodes s.memo) s in
        let a = fini_modules-Passed fini quiet (tree.nodes s.memo) s in
        let u = gc r.1 in
        let f = force_modules-Passed fini quiet (tree.nodes u.memo) u in
        elim (Bool-cases (r.0 == 0)) [
          | inl z ↦ (r.1, rw (shutdown_loop, z), ground (arith, z, a.least, a.closer.memo))
          | inr z ↦ elim (Bool-cases (r.0 == last)) [
            | inl e ↦ (
              force_modules fini (tree.nodes u.memo) u,
              rw (shutdown_loop, z, e),
              ground (arith, f.least, f.closer.memo),
            )
            | inr e ↦
                let more =
                  rest r.0 u a.most (ground (arith, e))
                    (ground (arith, collects r.1, a.least, a.closer.memo)) in
                (more.0, rw (shutdown_loop, z, e) more.1, more.2)
          ]
        ]

    later-Ends :
        (fuel last : ℕ) (s : State T W)
        → open_modules tree s ≤ last
        → last < fuel
        → Ends fuel last s
    later-Ends zero last s few enough = absurd (omega arith)
    later-Ends (suc fuel) last s few enough =
        round-Ends fuel last s
          (λ n u le ne small. later-Ends fuel n u small (omega (arith, le, ne, few, enough)))

    -- Where the fini functions leave the handles and the memo alone and a collection gives no module
    -- a fini function, the loop of the shutdown ends within two rounds more than there are modules
    -- with a fini function, and no module of the memo is left with one.
    pub shutdown_loop-Ends :
        (s : State T W)
        → (u : State T W) × (shutdown_loop tree fini gc (open_modules tree s + 2) 0 s ≡ some u)
          × (open_modules tree u ≡ 0)
    unfolding Ends
    shutdown_loop-Ends s =
        let n = open_modules tree s in
        let e : n + 2 ≡ suc (n + 1) = omega arith in
        rw e (
          round-Ends (n + 1) 0 s
            (λ m u le ne small. later-Ends (n + 1) m u small (omega (arith, le))))
