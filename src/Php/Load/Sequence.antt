-- ===== src/Php/Load/Sequence.antt =====
-- The order in which `phpSession_load` (modules/cgi/phpsess.c) uses the session file.
use gpsee.Base.{
  ℕ, ◌≡◌, ◌⊎◌, inl, inr, refl, ◌∙◌, Bool, true, false, not, List, [], ◌∷◌, ◌++◌, Option, none, some,
  ◌==◌, if◌then◌else◌, Bool-cases, length,
}
use gpsee.Php.Loop.{parse_cases}
use gpsee.Php.{Outcome, loaded, fault, Hash}
use gpsee.Php.Load.{
  is_false, is_true, Config, Disk, Event, opened, tried, yielded, slept, blocked, mapped, unmapped,
  touched, closed, succeeds, block, lock_file, Returned, finish, leave, load_locked, load,
}

-- The file: not open, open, open and free to be read, mapped.
pub data Stage : Type 0 where
  shut waiting free in_memory : Stage

-- What the event makes of the stage; `none` is an event that has no place there. The flag is whether
-- the file is to be locked before it is read.
unfoldable pub after : Bool → Stage → Event → Option Stage
after locking shut opened = some (if locking then waiting else free)
after locking waiting (tried status) = some (if succeeds status then free else waiting)
after locking waiting (blocked status) = some (if succeeds status then free else waiting)
after locking waiting yielded = some waiting
after locking waiting slept = some waiting
after locking waiting closed = some shut
after locking free mapped = some in_memory
after locking free touched = some free
after locking free closed = some shut
after locking in_memory unmapped = some free
after locking _ _ = none

unfoldable pub run : Bool → Stage → List Event → Option Stage
unfolding after
run locking stage [] = some stage
run locking stage (e ∷ events) = elim (after locking stage e) [
  | none ↦ none
  | some next ↦ run locking next events
]

-- Whether the file is to be locked.
abbrev pub locks : Config → Bool
locks cfg = not (is_false cfg.lock_php_session_files)

-- A call that does not give the lock.
run-refused :
    (status : ℕ) (rest : List Event)
    → succeeds status ≡ false
    → run true waiting (tried status ∷ rest) ≡ run true waiting rest
unfolding run after
run-refused status rest h = rw h refl

run-closed :
    (locking held : Bool) → run locking (if held then free else waiting) (closed ∷ []) ≡ some shut
unfolding run after
run-closed locking true = refl
run-closed locking false = refl

-- The mapping behind a lock, and the end of the function.
run-finish :
    (locking touch : Bool)
    → run locking free (mapped ∷ unmapped ∷ (if touch then touched ∷ closed ∷ [] else closed ∷ []))
      ≡ some shut
unfolding run after
run-finish locking true = refl
run-finish locking false = refl

module _ (cfg : Config) (disk : Disk) where
  run-block :
      (status : ℕ) (rest : List Event)
      → run true (if succeeds status then free else waiting) ((block cfg disk status).1 ++ rest)
        ≡ run true (if succeeds (block cfg disk status).0 then free else waiting) rest
  unfolding block run after
  run-block status rest = elim (Bool-cases (succeeds status)) [
    | inl h ↦ rw (block, h, h) refl
    | inr h ↦ elim (Bool-cases (is_false cfg.block_for_php_session_locks)) [
      | inl g ↦ rw (block, h, g, h) refl
      | inr g ↦ rw (block, h, g) refl
    ]
  ]

  run-lock_file :
      (rest : List Event)
      → run (locks cfg) (if locks cfg then waiting else free) ((lock_file cfg disk).1 ++ rest)
        ≡ run (locks cfg) (if succeeds (lock_file cfg disk).0 then free else waiting) rest
  unfolding lock_file run after
  run-lock_file rest = elim (Bool-cases (is_false cfg.lock_php_session_files)) [
    | inl h ↦ rw (lock_file, h) refl
    | inr h ↦ elim (Bool-cases (succeeds (disk.lock_status 0))) [
      | inl g ↦ rw (lock_file, h, g) refl
      | inr g ↦ elim (Bool-cases (succeeds (disk.lock_status 1))) [
        | inl f ↦
            rw (lock_file, h, g, f)
              (run-refused (disk.lock_status 0) (yielded ∷ tried (disk.lock_status 1) ∷ rest) g)
        | inr f ↦
            let third = (block cfg disk (disk.lock_status 2)).1 ++ rest in
            let slowly = slept ∷ tried (disk.lock_status 2) ∷ third in
            rw (lock_file, h, g, f)
              (run-refused (disk.lock_status 0) (yielded ∷ tried (disk.lock_status 1) ∷ slowly) g
                ∙ run-refused (disk.lock_status 1) slowly f
                ∙ run-block (disk.lock_status 2) rest)
      ]
    ]
  ]

  -- Behind the calls for the lock the file is closed, from either stage.
  run-leave : run (locks cfg) shut ((opened ∷ (lock_file cfg disk).1) ++ closed ∷ []) ≡ some shut
  unfolding run after
  run-leave = run-lock_file (closed ∷ []) ∙ run-closed (locks cfg) (succeeds (lock_file cfg disk).0)

-- What the function gives is a fault, or a return that leaves the file closed, used in order, and
-- with a session only where the status is APR_SUCCESS.
abbrev IsOrderly : (hash : Hash) → Config → Outcome (Returned hash) → Type 0
IsOrderly hash cfg result =
    (result ≡ fault)
    ⊎ ((r : Returned hash) × (result ≡ loaded r)
        × (run (locks cfg) shut r.events ≡ some shut)
        × ((r.session ≡ none) ⊎ (r.status ≡ 0)))

module _ (hash : Hash) (grants : ℕ → Bool) (cfg : Config) (disk : Disk) where
  leave-IsOrderly :
      (before : List Event) (status : ℕ)
      → run (locks cfg) shut (before ++ closed ∷ []) ≡ some shut
      → IsOrderly hash cfg (leave hash grants cfg disk before status)
  leave-IsOrderly before status out = inr (_, refl, out, inl refl)

  load_locked-IsOrderly :
      (before : List Event)
      → run (locks cfg) shut (before ++ closed ∷ []) ≡ some shut
      → ((rest : List Event) → run (locks cfg) shut (before ++ rest) ≡ run (locks cfg) free rest)
      → IsOrderly hash cfg (load_locked hash grants cfg disk before)
  unfolding load_locked finish
  load_locked-IsOrderly before out in_hand = elim (Bool-cases (succeeds disk.info_status)) [
    | inr h ↦ rw (h, load_locked) (leave-IsOrderly before disk.info_status out)
    | inl h ↦ elim (Bool-cases (length disk.contents == 0)) [
      | inl g ↦ rw (h, load_locked, g) (inl refl)
      | inr g ↦ elim (Bool-cases (succeeds disk.mmap_status)) [
        | inr f ↦ rw (h, load_locked, g, f) (leave-IsOrderly before disk.mmap_status out)
        | inl f ↦ elim (Bool-cases disk.usable) [
          | inr e ↦ rw (h, load_locked, g, f, e) (leave-IsOrderly before 0 out)
          | inl e ↦ elim (parse_cases hash grants (length disk.fill) (disk.contents ++ disk.fill)) [
            | inr d ↦ rw (h, load_locked, g, f, e, d, finish) (inl refl)
            | inl (table, d) ↦
                rw (h, load_locked, g, f, e, d, finish)
                  (inr (
                    _,
                    refl,
                    in_hand _ ∙ run-finish (locks cfg) (is_true cfg.touch_php_session_files),
                    inr refl,
                  ))
          ]
        ]
      ]
    ]
  ]

  -- phpSession_load faults, or it returns and then has used the file in order: it is closed once if it
  -- was opened, is mapped only with the lock, if files are to be locked, and a mapping is undone
  -- before the file is closed; a table comes only with APR_SUCCESS.
  pub load-run :
      (load hash grants cfg disk ≡ fault)
      ⊎ ((r : Returned hash) × (load hash grants cfg disk ≡ loaded r)
          × (run (locks cfg) shut r.events ≡ some shut)
          × ((r.session ≡ none) ⊎ (r.status ≡ 0)))
  unfolding load run after
  load-run = elim (Bool-cases (succeeds disk.open_status)) [
    | inr h ↦ simp (h, load) (inr (_, refl, refl, inl refl))
    | inl h ↦ elim (Bool-cases (succeeds (lock_file cfg disk).0)) [
      | inr g ↦
          simp (h, load, g)
            (leave-IsOrderly (opened ∷ (lock_file cfg disk).1) (lock_file cfg disk).0
              (run-leave cfg disk))
      | inl g ↦
          simp (h, load, g)
            (load_locked-IsOrderly (opened ∷ (lock_file cfg disk).1) (run-leave cfg disk)
              (λ rest. run-lock_file cfg disk rest ∙ rw g refl))
    ]
  ]
