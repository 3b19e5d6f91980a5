-- ===== src/Module/Scope/Frame.antt =====
-- What the set-up of a module scope (`initializeModuleScope` and `newModuleScope` of gpsee_modules.c)
-- leaves alone, on every path.
use gpsee.Base.{
  if◌then◌else◌, Option-cases, Bool-cases, inl, inr, ℕ, zero, suc, ◌+◌, ◌≡◌, ◌≢◌, refl, ◌∙◌, Bool,
  true, false, arith, ◌==◌,
}
use gpsee.Module.{State, write}
use gpsee.Module.Engine.{Engine, Realm, Attributes, M, ◌>>=◌, ◌>>◌, pure, ask, modify, non_null}
use gpsee.Module.Scope.{
  set_module_scope_info, copy_slots, first_user_path, define_undefined, define_module,
  initialize_module_scope, rooted_scope, new_module_scope,
}

module _ {T W : Type 0} where
  -- Nothing of the handles changes but the exports of one, and of the rest only what a scope needs.
  pub record Frame (p : ℕ) (s u : State T W) : Type 0 where
    pub memo : u.memo ≡ s.memo
    pub unreachable : u.unreachable ≡ s.unreachable
    pub top : u.top ≡ s.top
    pub lock_depth : u.lock_depth ≡ s.lock_depth
    pub others : (q : ℕ) → q ≢ p → u.handles q ≡ s.handles q
    pub own : u.handles p ≡ record (s.handles p) { exports = (u.handles p).exports }

  pub Frame-refl : (p : ℕ) (s : State T W) → Frame p s s
  Frame-refl p s = record {
    memo = refl;
    unreachable = refl;
    top = refl;
    lock_depth = refl;
    others = λ q ne. refl;
    own = refl;
  }

  pub Frame-trans : (p : ℕ) (s u v : State T W) → Frame p s u → Frame p u v → Frame p s v
  Frame-trans p s u v f g = record {
    memo = g.memo ∙ f.memo;
    unreachable = g.unreachable ∙ f.unreachable;
    top = g.top ∙ f.top;
    lock_depth = g.lock_depth ∙ f.lock_depth;
    others = λ q ne. g.others q ne ∙ f.others q ne;
    own = ground (arith, f.own, g.own);
  }

  record Keeps {A : Type 0} (p : ℕ) (m : M T W A) : Type 0 where
    keeps : (s : State T W) → Frame p s (m s).1

  Keeps-bind :
      {A B : Type 0} {p : ℕ} {m : M T W A} {f : A → M T W B}
      → Keeps p m
      → ((a : A) → Keeps p (f a))
      → Keeps p (m >>= f)
  unfolding ◌>>=◌
  Keeps-bind {p} {m} {f} km kf = record {
    keeps = λ s.
        Frame-trans p s (m s).1 (f (m s).0 (m s).1).1 (km.keeps s) ((kf (m s).0).keeps (m s).1);
  }

  Keeps-then : {p : ℕ} {m rest : M T W Bool} → Keeps p m → Keeps p rest → Keeps p (m >> rest)
  unfolding ◌>>◌
  Keeps-then {p} {m} {rest} km kr = record { keeps = λ s. both s (m s).0 refl }
    where
      both : (s : State T W) (b : Bool) → (m s).0 ≡ b → Frame p s ((m >> rest) s).1
      both s true h =
          rw (h, ◌>>◌) (Frame-trans p s (m s).1 (rest (m s).1).1 (km.keeps s) (kr.keeps (m s).1))
      both s false h = rw (h, ◌>>◌) (km.keeps s)

  -- A change of nothing but the world, the private slots and the fields of the realm.
  Frame-aside :
      (p : ℕ) (s : State T W) (info : ℕ → ℕ) (user main : ℕ) (w : W)
      → Frame p s (record s { scope_info = info; user_path = user; require_main = main; world = w })
  Frame-aside p s info user main w = record {
    memo = refl;
    unreachable = refl;
    top = refl;
    lock_depth = refl;
    others = λ q ne. refl;
    own = refl;
  }

  Keeps-ask : {A : Type 0} (p : ℕ) (call : W → A × W) → Keeps {A = A} p (ask call)
  unfolding ask
  Keeps-ask p call = record {
    keeps = λ s. Frame-aside p s s.scope_info s.user_path s.require_main (call s.world).1;
  }

  Keeps-ask_at :
      {A : Type 0} (p : ℕ) (call : State T W → W → A × W) → Keeps {A = A} p (λ s. ask (call s) s)
  unfolding ask
  Keeps-ask_at p call = record { keeps = λ s. (Keeps-ask p (call s)).keeps s }

  Keeps-non_null : (p q : ℕ) → Keeps p (non_null q)
  unfolding non_null
  Keeps-non_null p q = record { keeps = λ s. Frame-refl p s }

  Keeps-pure : {A : Type 0} (p : ℕ) (a : A) → Keeps {A = A} p (pure a)
  unfolding pure
  Keeps-pure p a = record { keeps = λ s. Frame-refl p s }

  Keeps-main : (p : ℕ) (f : State T W → ℕ) → Keeps p (modify (λ s. record s { require_main = f s }))
  unfolding modify
  Keeps-main p f = record { keeps = λ s. Frame-aside p s s.scope_info s.user_path (f s) s.world }

  Keeps-exports :
      (p x : ℕ) → Keeps p (modify (λ s. write p (record (s.handles p) { exports = x }) s))
  unfolding modify
  Keeps-exports p x = record {
    keeps = λ s. record {
      memo = refl;
      unreachable = refl;
      top = refl;
      lock_depth = refl;
      others = λ q ne. ground arith;
      own = ground arith;
    };
  }

  Keeps-info :
      (p : ℕ) (f : State T W → ℕ → ℕ) → Keeps p (modify (λ s. record s { scope_info = f s }))
  unfolding modify
  Keeps-info p f = record { keeps = λ s. Frame-aside p s (f s) s.user_path s.require_main s.world }

  module _ (e : Engine W) (p : ℕ) where
    Frame-world : (s : State T W) (w : W) → Frame p s (record s { world = w })
    Frame-world s w = Frame-aside p s s.scope_info s.user_path s.require_main w

    Frame-copy_slots : (n key scope : ℕ) (s : State T W) → Frame p s (copy_slots e n key scope s).1
    unfolding copy_slots
    Frame-copy_slots zero key scope s = Frame-refl p s
    Frame-copy_slots (suc n) key scope s =
        let w = (e.get_slot key s.world).1 in
        elim (Option-cases (e.get_slot key s.world).0) [
          | inl h ↦ rw (h, copy_slots) (Frame-world s w)
          | inr (v, h) ↦
              let w' = (e.set_slot scope key v w).1 in
              elim (Bool-cases (e.set_slot scope key v w).0) [
                | inr f ↦ rw (h, f, copy_slots) (Frame-world s w')
                | inl t ↦
                    let next = record s { world = w' } in
                    rw (h, t, copy_slots)
                      (Frame-trans p s next (copy_slots e n (key + 1) scope next).1
                        (Frame-world s w') (Frame-copy_slots n (key + 1) scope next))
              ]
        ]

    Keeps-first_user_path : Keeps p (first_user_path e)
    unfolding first_user_path
    Keeps-first_user_path = record {
      keeps = λ s. elim (Bool-cases (s.user_path == 0)) [
        | inl h ↦
            rw (h, first_user_path)
              (Frame-aside p s s.scope_info (e.new_array (e.add_root s.world)).0 s.require_main
                (e.new_array (e.add_root s.world)).1)
        | inr h ↦ rw (h, first_user_path) (Frame-refl p s)
      ];
    }

    module _ (realm : Realm) (scope : ℕ) where
      Keeps-define_undefined : (b : Bool) → Keeps p (define_undefined e realm scope b)
      unfolding define_undefined
      Keeps-define_undefined b = record {
        keeps = λ s. elim (Bool-cases (scope == realm.global)) [
          | inl h ↦ rw (h, define_undefined) (Frame-refl p s)
          | inr h ↦
              rw (h, define_undefined)
                ((Keeps-then (record { keeps = Frame-copy_slots e.slot_limit 0 scope })
                    (Keeps-ask p _)).keeps
                  s)
        ];
      }

      Keeps-define_module :
          (a : Attributes) (require : ℕ) → Keeps p (define_module e realm p scope a require)
      unfolding define_module
      Keeps-define_module a require = Keeps-bind (Keeps-ask p _) λ x.
          Keeps-then (Keeps-exports p x) (
            Keeps-then (Keeps-ask p _) (
              Keeps-bind (Keeps-ask p _) λ m. Keeps-then (Keeps-non_null p m) (
                Keeps-then (Keeps-main p _) (
                  Keeps-then (Keeps-ask_at p _) (
                    Keeps-then (Keeps-ask p _) (
                      Keeps-bind (Keeps-ask_at p _)
                        λ l. Keeps-then (Keeps-non_null p l) (Keeps-ask p _)))))))

      Keeps-initialize : (b : Bool) → Keeps p (initialize_module_scope e realm p scope b)
      unfolding initialize_module_scope set_module_scope_info
      Keeps-initialize b = Keeps-then (Keeps-then (Keeps-ask p _) (Keeps-info p _)) (
          Keeps-then (Keeps-define_undefined b) (
            Keeps-bind (Keeps-ask p _) λ r. Keeps-then (Keeps-non_null p r) (
              Keeps-then Keeps-first_user_path (
                Keeps-then (Keeps-ask_at p _)
                  (Keeps-then (Keeps-ask p _) (Keeps-define_module _ r))))))

      pub initialize_module_scope-Frame :
          (b : Bool) (s : State T W) → Frame p s (initialize_module_scope e realm p scope b s).1
      initialize_module_scope-Frame b s = (Keeps-initialize b).keeps s

    Keeps-rooted :
        (realm : Realm) (b : Bool) → Keeps p (if b then rooted_scope e realm p else pure 0)
    unfolding rooted_scope
    Keeps-rooted realm false = Keeps-pure p _
    Keeps-rooted realm true = Keeps-bind (Keeps-ask p _) λ scope.
        Keeps-bind
          (Keeps-then (Keeps-non_null p scope)
            (Keeps-then (Keeps-ask p _) (Keeps-initialize realm scope false)))
          λ d. Keeps-pure p _

    pub new_module_scope-Frame :
        (realm : Realm) (s : State T W) → Frame p s (new_module_scope e realm p s).1
    unfolding new_module_scope
    new_module_scope-Frame realm s = (Keeps-bind (Keeps-ask p _) λ b. Keeps-rooted realm b).keeps s
