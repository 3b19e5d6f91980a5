-- ===== src/Module/Release.antt =====
-- `markModuleUnused` and `releaseModuleHandle` of gpsee_modules.c.
use gpsee.Base.{
  ℕ, ◌≡◌, refl, ◌∙◌, ap, Bool, true, false, List, ◌∷◌, inl, inr, arith, ◌==◌, Bool-cases,
  if◌then◌else◌,
}
use gpsee.Base.Name.{Name, same_name, same_name_refl}
use gpsee.Module.{Handle, Splay, State, write, Fini, has_fini, finish, mark_unused, release}
use gpsee.Module.Memo.{IsEntry, IsMemo, unused, read-write}

module _ {T W : Type 0} where
  -- Neither the memo and the lists nor the names of modules change, nor which are released.
  pub record Calm (s u : State T W) : Type 0 where
    pub memo : u.memo ≡ s.memo
    pub unreachable : u.unreachable ≡ s.unreachable
    pub top : u.top ≡ s.top
    pub lock_depth : u.lock_depth ≡ s.lock_depth
    pub cname : (q : ℕ) → (u.handles q).cname ≡ (s.handles q).cname
    pub released : (q : ℕ) → (u.handles q).released ≡ (s.handles q).released

  pub Calm-refl : (s : State T W) → Calm s s
  Calm-refl s = record {
    memo = refl;
    unreachable = refl;
    top = refl;
    lock_depth = refl;
    cname = λ q. refl;
    released = λ q. refl;
  }

  pub Calm-trans : (s u v : State T W) → Calm s u → Calm u v → Calm s v
  Calm-trans s u v a b = record {
    memo = b.memo ∙ a.memo;
    unreachable = b.unreachable ∙ a.unreachable;
    top = b.top ∙ a.top;
    lock_depth = b.lock_depth ∙ a.lock_depth;
    cname = λ q. b.cname q ∙ a.cname q;
    released = λ q. b.released q ∙ a.released q;
  }

  pub Calm-write :
      (p : ℕ) (h : Handle) (s : State T W)
      → h.cname ≡ (s.handles p).cname
      → h.released ≡ (s.handles p).released
      → Calm s (write p h s)
  Calm-write p h s n r = record {
    memo = refl;
    unreachable = refl;
    top = refl;
    lock_depth = refl;
    cname = λ q. ground arith;
    released = λ q. ground arith;
  }

  -- What the code relies on: a module's fini function leaves the book-keeping of modules alone.
  abbrev pub IsCalm : Fini T W → Type 0
  IsCalm fini = (f x : ℕ) (force : Bool) (s : State T W) → Calm s (fini f x force s).1

module _ {T W : Type 0} (fini : Fini T W) (calm : IsCalm fini) (p : ℕ) where
  Calm-finish : (s : State T W) → Calm s (finish fini p s)
  unfolding finish
  Calm-finish s =
      let h = s.handles p in
      let s₁ = (fini h.fini h.exports true s).1 in
      let c = calm h.fini h.exports true s in
      elim (Bool-cases (fini h.fini h.exports true s).0) [
        | inl e ↦
            let g : Handle = record (s₁.handles p) { fini = 0 } in
            rw (e, finish) (Calm-trans s s₁ (write p g s₁) c (Calm-write p g s₁ refl refl))
        | inr e ↦ rw (e, finish) c
      ]

  pub mark_unused-Calm : (s : State T W) → Calm s (mark_unused fini p s)
  unfolding mark_unused
  mark_unused-Calm s = elim (Bool-cases (has_fini (s.handles p))) [
    | inl e ↦
        let s₁ = finish fini p s in
        let g = unused (s₁.handles p) in
        rw (e, mark_unused)
          (Calm-trans s s₁ (write p g s₁) (Calm-finish s) (Calm-write p g s₁ refl refl))
    | inr e ↦ rw (e, mark_unused) (Calm-write p (unused (s.handles p)) s refl refl)
  ]

module _ {T W : Type 0} (tree : Splay T) (fini : Fini T W) (calm : IsCalm fini) (p : ℕ)
    (s : State T W) where
  pub release_done : (s.handles p).released ≡ true → release tree fini p s ≡ s
  unfolding release
  release_done h = rw (h, release)

  -- What a release of a handle that has not been released changes.
  pub record Released (u : State T W) : Type 0 where
    pub memo : u.memo ≡ tree.remove (s.handles p).cname s.memo
    pub unreachable : u.unreachable ≡ p ∷ s.unreachable
    pub top : u.top ≡ s.top
    pub lock_depth : u.lock_depth ≡ s.lock_depth
    pub cname : (q : ℕ) → (u.handles q).cname ≡ (s.handles q).cname
    pub released :
        (q : ℕ) → (u.handles q).released ≡ (if q == p then true else (s.handles q).released)

  pub release-Released : (s.handles p).released ≡ false → Released (release tree fini p s)
  unfolding release
  release-Released h =
      let s₁ = write p (record (s.handles p) { released = true }) s in
      let name = ap Handle.cname (read-write p (record (s.handles p) { released = true }) s) in
      let s₂ = record s₁ { memo = tree.remove (s₁.handles p).cname s.memo } in
      let c = mark_unused-Calm fini calm p s₂ in
      rw (h, release)
        (record {
          memo = c.memo ∙ ap (λ (k : Name). tree.remove k s.memo) name;
          unreachable = ap (λ (t : List ℕ). p ∷ t) c.unreachable;
          top = c.top;
          lock_depth = c.lock_depth;
          cname = λ q. ground (arith, c.cname q);
          released = λ q. ground (arith, c.released q);
        })

module _ {T W : Type 0} (tree : Splay T) (fini : Fini T W) (calm : IsCalm fini) (p : ℕ)
    (s : State T W) where
  -- Where the fini functions leave the book-keeping alone, a handle that was released is not released
  -- again: a second call changes nothing.
  pub release-release : release tree fini p (release tree fini p s) ≡ release tree fini p s
  release-release = elim (Bool-cases (s.handles p).released) [
    | inl h ↦ rw (release_done tree fini calm p s h) (release_done tree fini calm p s h)
    | inr h ↦
        let r = release-Released tree fini calm p s h in
        release_done tree fini calm p (release tree fini p s) (ground (arith, r.released p))
  ]

  IsEntry-release :
      (s.handles p).released ≡ false
      → IsMemo tree s
      → (k : Name) → IsEntry tree (release tree fini p s) k
  IsEntry-release h m k =
      let r = release-Released tree fini calm p s h in
      let old = m k in
      let q = tree.find k s.memo in
      let now = tree.find-remove k (s.handles p).cname s.memo in
      record {
        named = ground (arith, r.memo, now, old.named, r.cname q);
        live = ground (arith, r.memo, now, old.named, old.live, r.released q, same_name_refl k);
        allocated = ground (arith, r.memo, now, r.top, old.allocated);
      }

  -- Under the same condition, a release of a handle that has not been released takes exactly its name
  -- from the memo, puts the handle before the list of the unreachable ones, and keeps the memo a
  -- memo.
  pub release_lem :
      (k : Name)
      → (s.handles p).released ≡ false
      → IsMemo tree s
      → (tree.find k (release tree fini p s).memo
          ≡ (if same_name k (s.handles p).cname then 0 else tree.find k s.memo))
        × ((release tree fini p s).unreachable ≡ p ∷ s.unreachable)
        × IsMemo tree (release tree fini p s)
  release_lem k h m =
      let r = release-Released tree fini calm p s h in
      (
        rw r.memo (tree.find-remove k (s.handles p).cname s.memo),
        r.unreachable,
        IsEntry-release h m,
      )
