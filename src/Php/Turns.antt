-- ===== src/Php/Turns.antt =====
-- One turn of the loop of `phpSession_load` (modules/cgi/phpsess.c): how far it gets and what it keeps.
use mathlib.Core.Option.{none-ne-some}
use gpsee.Base.{
  ℕ, ◌+◌, ◌≤◌, ◌<◌, ◌≡◌, ◌≢◌, inl, inr, ap, subst, ◌∙◌, Bool, ◌&&◌, List, [], ◌∷◌, Option, none,
  some, arith, ◌==◌, if◌then◌else◌, Bool-cases, Option-cases, length, get_elem?, take, drop,
  length-drop,
}
use gpsee.Php.Strings.{strchr}
use gpsee.Php.Search.{IsFirst, strchr-IsFirst}
use gpsee.Php.{
  Value, Switched, Turn, stop, go, pointer, switch, recover, named, settle, turn, resume,
  sizeof_value, at_pipe,
}
use gpsee.Php.Branches.{Holds, IsWithin, IsTyped, IsSwitched, get_elem?-drop, switch-IsSwitched}

-- What a turn comes to from `s`.
pub data IsTurn (s : List ℕ) : Option Turn → Type 0 where
  fault : IsTurn s none
  last : IsTurn s (some stop)
  skipped : (rest : List ℕ) → length rest < length s → IsTurn s (some (go rest none))
  kept :
      (rest name : List ℕ) (value : Value)
      → length rest < length s
      → name ≢ []
      → IsTyped value.type value.datum
      → IsTurn s (some (go rest (some (name, value))))

resume-IsTurn :
    (s from : List ℕ) (found : Option ℕ)
    → length from < length s
    → IsTurn s (some (resume (pointer from found)))
resume-IsTurn s from none lt = last
resume-IsTurn s from (some k) lt =
    skipped _ (omega (arith, length-drop 1 (drop k from), length-drop k from, lt))

recover-IsTurn :
    (s pipe : List ℕ) → 0 < length pipe → length pipe ≤ length s → IsTurn s (recover pipe)
unfolding recover
recover-IsTurn s pipe some_left le = elim (Option-cases (strchr b';' (drop 1 pipe))) [
  | inl h ↦ rw (h, recover) fault
  | inr (found, h) ↦
      rw (h, recover)
        (resume-IsTurn s (drop 1 pipe) found (omega (arith, length-drop 1 pipe, some_left, le)))
]

named-IsTurn :
    (s rest name : List ℕ) (value : Value)
    → length rest < length s
    → IsTyped value.type value.datum
    → IsTurn s (some (go rest (named name value)))
named-IsTurn s rest [] value lt typed = skipped rest lt
named-IsTurn s rest (x ∷ xs) value lt typed = kept rest (x ∷ xs) value lt (λ e. cc) typed

length_pos : (s : List ℕ) (c : ℕ) → get_elem? s 0 ≡ some c → 0 < length s
length_pos [] c e = absurd (none-ne-some _ e)
length_pos (x ∷ s) c e = omega arith

-- Behind a switch that leaves the pointer `at`, where the byte `c` stands.
at_end-IsTurn :
    (s name pipe at : List ℕ) (type c : ℕ) (out : Switched)
    → 0 < length pipe
    → length pipe ≤ length s
    → IsSwitched (length s) type out
    → out.s ≡ some at
    → get_elem? at 0 ≡ some c
    → IsTurn s (
        if out.integrous && (c == b';')
        then some (go (drop 1 at) (named name (record { type = type; datum = out.datum })))
        else recover pipe)
at_end-IsTurn s name pipe at type c out some_left le switched h there =
    elim (Bool-cases (out.integrous && (c == b';'))) [
      | inr g ↦ rw g (recover-IsTurn s pipe some_left le)
      | inl g ↦ elim (switched.typed (ground (arith, g))) [
        | inr bad ↦ absurd (bad at h (there ∙ ap some (ground (arith, g))))
        | inl typed ↦
            let inside : length at ≤ length s = subst (IsWithin (length s)) h switched.within in
            rw g (
              named-IsTurn s (drop 1 at) name _
                (omega (arith, length-drop 1 at, length_pos at c there, inside)) typed)
      ]
    ]

settle-IsTurn :
    (s name pipe : List ℕ) (type : ℕ) (out : Switched)
    → 0 < length pipe
    → length pipe ≤ length s
    → IsSwitched (length s) type out
    → IsTurn s (settle name pipe type out)
unfolding settle
settle-IsTurn s name pipe type out some_left le switched = elim (Option-cases out.s) [
  | inl h ↦ rw (h, settle) last
  | inr (at, h) ↦ elim (Option-cases (get_elem? at 0)) [
    | inl g ↦ rw (h, settle, g) fault
    | inr (c, g) ↦
        rw (h, settle, g) (at_end-IsTurn s name pipe at type c out some_left le switched h g)
  ]
]

at_pipe-IsTurn :
    (grants : ℕ → Bool) (s : List ℕ) (k : ℕ)
    → IsFirst b'|' s k
    → IsTurn s (at_pipe grants s (some k))
unfolding at_pipe
at_pipe-IsTurn grants s k f = elim (Bool-cases (grants (k + 1) && grants sizeof_value)) [
  | inr h ↦ rw (h, at_pipe) fault
  | inl h ↦ elim (Option-cases (get_elem? (drop k s) 1)) [
    | inl g ↦ rw (h, at_pipe, g) fault
    | inr (type, g) ↦
        let bar : get_elem? (drop k s) 0 ≡ some b'|' = get_elem?-drop k s ∙ f.there in
        let le : length (drop k s) ≤ length s = omega (arith, length-drop k s) in
        let switched =
          switch-IsSwitched grants (length s) type s (drop k s) (λ e. ground (arith, bar, e))
            (omega arith) le in
        elim (Option-cases (switch grants type s (drop k s))) [
          | inl e ↦ rw (h, at_pipe, g, e) fault
          | inr (out, e) ↦
              rw (h, at_pipe, g, e)
                (settle-IsTurn s (take k s) (drop k s) type out (length_pos (drop k s) b'|' bar) le
                  (subst (Holds _) e switched))
        ]
  ]
]

-- A turn faults, or ends the loop, or gets on by a byte or more, and then it keeps nothing, or a
-- variable that has a name and is a string or an integer.
pub turn-IsTurn : (grants : ℕ → Bool) (s : List ℕ) → IsTurn s (turn grants s)
unfolding turn at_pipe
turn-IsTurn grants s = elim (Option-cases (strchr b'|' s)) [
  | inl h ↦ rw (h, turn) fault
  | inr (none, h) ↦ rw (h, turn, at_pipe) last
  | inr (some k, h) ↦ rw (h, turn) (at_pipe-IsTurn grants s k (strchr-IsFirst b'|' s k h))
]
