-- ===== src/Async/Calls.antt =====
-- The calls of the asynchronous callbacks of gpsee.c, and the removal of one.
use gpsee.Base.{
  subst, ℕ, zero, suc, ◌≤◌, ◌≡◌, ◌≢◌, refl, sym, Bool, true, false, List, [], ◌∷◌, ◌++◌, none, some,
  arith, ◌==◌, length,
}
use mathlib.Core.List.{append_assoc}
use gpsee.Async.{
  Entry, State, Host, unlink, at_handle, remove_async_callback, call_from, operation_callback,
}

-- No entry of the list is at the address.
pub data IsAbsent (handle : ℕ) : List Entry → Type 0 where
  absent_nil : IsAbsent handle []
  absent_cons :
      (x : Entry) (list : List Entry)
      → x.handle ≢ handle
      → IsAbsent handle list
      → IsAbsent handle (x ∷ list)

pub data IsDistinct : List Entry → Type 0 where
  distinct_nil : IsDistinct []
  distinct_cons :
      (x : Entry) (list : List Entry)
      → IsAbsent x.handle list
      → IsDistinct list
      → IsDistinct (x ∷ list)

unlink_absent :
    (handle : ℕ) (x : Entry) (list : List Entry)
    → IsAbsent handle list
    → unlink handle (x ∷ list) ≡ none
unfolding unlink
unlink_absent handle x _ absent_nil = refl
unlink_absent handle x _ (absent_cons y list ne absent) =
    let other : (y.handle == handle) ≡ false = ground (arith, ne) in
    rw (other, unlink_absent handle y list absent)

unlink_behind :
    (y x : Entry) (pre rest : List Entry)
    → IsAbsent y.handle pre
    → unlink y.handle (x ∷ pre ++ (y ∷ rest)) ≡ some (x ∷ pre ++ rest)
unfolding unlink
unlink_behind y x _ rest absent_nil =
    let own : (y.handle == y.handle) ≡ true = ground arith in rw (own)
unlink_behind y x _ rest (absent_cons z list ne absent) =
    let other : (z.handle == y.handle) ≡ false = ground (arith, ne) in
    rw (other, unlink_behind y z list rest absent)

-- gpsee_removeAsyncCallback takes exactly its entry out of the list and frees it, if another one stands
-- before it; the first entry of the list is not found, and its removal reads through NULL.
pub remove_async_callback_lem :
    {W : Type 0} (h : Host W) (x y : Entry) (pre rest : List Entry) (w : W)
    → IsAbsent y.handle pre
    → IsAbsent x.handle (pre ++ (y ∷ rest))
    → (remove_async_callback h y.handle (record { list = x ∷ pre ++ (y ∷ rest); world = w })
        ≡ some (record { list = x ∷ pre ++ rest; world = h.free y.handle w }))
      × (remove_async_callback h x.handle (record { list = x ∷ pre ++ (y ∷ rest); world = w })
          ≡ none)
unfolding remove_async_callback
remove_async_callback_lem h x y pre rest w absent first = (
  rw (unlink_behind y x pre rest absent),
  rw (unlink_absent x.handle x (pre ++ (y ∷ rest)) first),
)

absent_elsewhere :
    (handle : ℕ) (x : Entry) (pre rest : List Entry)
    → IsAbsent handle (pre ++ (x ∷ rest))
    → x.handle ≢ handle
absent_elsewhere handle x [] rest (absent_cons _ _ ne absent) = ne
absent_elsewhere handle x (y ∷ pre) rest (absent_cons _ _ ne absent) =
    absent_elsewhere handle x pre rest absent

at_handle_found :
    (x : Entry) (pre rest : List Entry)
    → IsDistinct (pre ++ (x ∷ rest))
    → at_handle x.handle (pre ++ (x ∷ rest)) ≡ x ∷ rest
unfolding at_handle
at_handle_found x [] rest distinct =
    let own : (x.handle == x.handle) ≡ true = ground arith in rw (own)
at_handle_found x (y ∷ pre) rest (distinct_cons _ _ absent distinct) =
    let other : (y.handle == x.handle) ≡ false =
      ground (arith, absent_elsewhere y.handle x pre rest absent) in
    rw (other, at_handle_found x pre rest distinct)

module _ {W : Type 0} (h : Host W) (run : Entry → State W → Bool × State W)
    (effect : Entry → W → W) where
  -- The effects of the entries, in order.
  pub effects : List Entry → W → W
  effects [] w = w
  effects (x ∷ list) w = effects list (effect x w)

  module _
      (calm : (e : Entry) (st : State W)
        → run e st ≡ (true, record st { world = effect e st.world })) where
    call_from_all :
        (fuel : ℕ) (x : Entry) (pre rest : List Entry) (w : W)
        → length (x ∷ rest) ≤ fuel
        → IsDistinct (pre ++ (x ∷ rest))
        → call_from h run fuel x.handle (record { list = pre ++ (x ∷ rest); world = w })
          ≡ some (true, record { list = pre ++ (x ∷ rest); world = effects (x ∷ rest) w })
    unfolding call_from effects
    call_from_all zero x pre rest w enough distinct = absurd (omega (arith, enough))
    call_from_all (suc fuel) x pre [] w enough distinct = rw (
      at_handle_found x pre [] distinct,
      call_from,
      calm x (record { list = pre ++ (x ∷ []); world = w }),
    )
    call_from_all (suc fuel) x pre (y ∷ rest) w enough distinct =
        let moved = append_assoc pre (x ∷ []) (y ∷ rest) in
        rw
          (
            at_handle_found x pre (y ∷ rest) distinct,
            call_from,
            calm x (record { list = pre ++ (x ∷ y ∷ rest); world = w }),
          )
          (subst
            (λ (l : List Entry).
              call_from h run fuel y.handle (record { list = l; world = effect x w })
              ≡ some (true, record { list = l; world = effects (y ∷ rest) (effect x w) }))
            moved
            (call_from_all fuel y (pre ++ (x ∷ [])) rest (effect x w) (omega (arith, enough))
              (subst IsDistinct (sym moved) distinct)))

    -- The operation callback calls each entry of the list once, in order, and is set again behind them,
    -- in as many rounds as there are entries, where the callbacks succeed and leave the list alone, and
    -- no two entries are at one address.
    pub operation_callback-effects :
        (fuel cx : ℕ) (x : Entry) (rest : List Entry) (w : W)
        → length (x ∷ rest) ≤ fuel
        → IsDistinct (x ∷ rest)
        → operation_callback h run fuel cx (record { list = x ∷ rest; world = w })
          ≡ some (
            true,
            record {
              list = x ∷ rest;
              world =
                  h.set_operation_callback cx true
                    (effects (x ∷ rest) (h.set_operation_callback cx false w));
            },
          )
    unfolding operation_callback
    operation_callback-effects fuel cx x rest w enough distinct =
        rw (call_from_all fuel x [] rest (h.set_operation_callback cx false w) enough distinct)
