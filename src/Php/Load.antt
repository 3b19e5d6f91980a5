-- ===== src/Php/Load.antt =====
-- `phpSession_load` of modules/cgi/phpsess.c around its parsing loop: the file is opened, locked, mapped
-- and closed. APR's functions are what they answer; a status of 0 is APR_SUCCESS.
pub mod Sequence
use gpsee.Base.{
  ℕ, zero, suc, Bool, true, false, not, ◌&&◌, List, [], ◌∷◌, ◌++◌, Option, none, some, ◌==◌,
  if◌then◌else◌, length,
}
use gpsee.Php.{Outcome, loaded, fault, unfinished, Hash, parse}

-- `cfg_bool`
pub data Setting : Type 0 where
  cfg_false cfg_true cfg_undef : Setting

abbrev pub is_false : Setting → Bool
is_false cfg_false = true
is_false cfg_true = false
is_false cfg_undef = false

abbrev pub is_true : Setting → Bool
is_true cfg_false = false
is_true cfg_true = true
is_true cfg_undef = false

pub record Config : Type 0 where
  pub lock_php_session_files : Setting
  pub block_for_php_session_locks : Setting
  pub touch_php_session_files : Setting

-- What APR answers: `lock_status` to each call of `apr_file_lock` in turn. The mapping is the file
-- and what fills its last page, and `usable` is whether `mm` is neither NULL nor MAP_FAILED.
pub record Disk : Type 0 where
  pub open_status : ℕ
  pub lock_status : ℕ → ℕ
  pub info_status : ℕ
  pub mmap_status : ℕ
  pub usable : Bool
  pub contents : List ℕ
  pub fill : List ℕ

-- What is done to the file and to the process, in order; a call for a lock with what it gives.
pub data Event : Type 0 where
  opened : Event
  tried : ℕ → Event
  yielded : Event
  slept : Event
  blocked : ℕ → Event
  mapped unmapped touched closed : Event

abbrev pub succeeds : ℕ → Bool
succeeds status = status == 0

module _ (cfg : Config) (disk : Disk) where
  -- From behind the sleep, with the status of the third call.
  unfoldable pub block : ℕ → ℕ × List Event
  block status =
      if not (succeeds status) && not (is_false cfg.block_for_php_session_locks)
      then (disk.lock_status 3, blocked (disk.lock_status 3) ∷ [])
      else (status, [])

  -- The calls for the lock: the last status, and what was done.
  unfoldable pub lock_file : ℕ × List Event
  lock_file =
      if is_false cfg.lock_php_session_files
      then (0, [])
      else (if succeeds (disk.lock_status 0)
          then (disk.lock_status 0, tried (disk.lock_status 0) ∷ [])
          else (if succeeds (disk.lock_status 1)
              then (
                disk.lock_status 1,
                tried (disk.lock_status 0) ∷ yielded ∷ tried (disk.lock_status 1) ∷ [],
              )
              else (
                (block (disk.lock_status 2)).0,
                tried (disk.lock_status 0)
                    ∷ yielded
                    ∷ tried (disk.lock_status 1)
                    ∷ slept
                    ∷ tried (disk.lock_status 2)
                    ∷ (block (disk.lock_status 2)).1,
              )))

-- What is returned, what `*phpSession_p` holds (`none` is NULL), and what was done.
pub record Returned (hash : Hash) : Type 0 where
  pub status : ℕ
  pub session : Option hash.Table
  pub events : List Event

module _ (hash : Hash) (grants : ℕ → Bool) (cfg : Config) (disk : Disk) where
  -- The end of the function, behind the loop.
  unfoldable pub finish : List Event → Outcome hash.Table → Outcome (Returned hash)
  finish before fault = fault
  finish before unfinished = unfinished
  finish before (loaded table) = loaded (record {
    status = 0;
    session = some table;
    events =
        before
        ++ mapped
          ∷ unmapped
          ∷ (if is_true cfg.touch_php_session_files then touched ∷ closed ∷ [] else closed ∷ []);
  })

  -- An early return, behind a call of `apr_file_close`.
  abbrev pub leave : List Event → ℕ → Outcome (Returned hash)
  leave before status =
      loaded (record { status = status; session = none; events = before ++ closed ∷ [] })

  -- With the lock, `before` being what was done. Of an empty file `sessionImage` is read without a
  -- value.
  unfoldable pub load_locked : List Event → Outcome (Returned hash)
  unfolding finish
  load_locked before =
      if not (succeeds disk.info_status)
      then leave before disk.info_status
      else (if length disk.contents == 0
          then fault
          else (if not (succeeds disk.mmap_status)
              then leave before disk.mmap_status
              else (if not disk.usable
                  then leave before 0
                  else finish before
                      (parse hash grants (length disk.fill) (disk.contents ++ disk.fill)))))

  unfoldable pub load : Outcome (Returned hash)
  unfolding lock_file load_locked
  load =
      let (status, locks) = lock_file cfg disk in
      if not (succeeds disk.open_status)
      then loaded (record { status = disk.open_status; session = none; events = [] })
      else (if not (succeeds status)
          then leave (opened ∷ locks) status
          else load_locked (opened ∷ locks))
