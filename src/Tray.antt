-- ===== src/Tray.antt =====
-- utils/tray_common.py: the lock that keeps a second program from running. Times are milliseconds. A
-- lock file is its name as a number, if it is one, and the time that it tells, zero if it tells none.
-- The processes of the machine, and which files can be removed, are arguments.
pub mod Exclusion
pub mod Lifecycle
pub mod Settings
use tg_ws_proxy_rust.Prelude.{
  ℕ, ◌+◌, ◌-◌, Bool, true, false, not, ◌&&◌, ◌||◌, List, [], ◌∷◌, ◌++◌, Option, none, some, ltb,
  ◌==◌, if◌then◌else◌,
}

pub record LockFile : Type 0 where
  pub pid : Option ℕ
  pub create_time : ℕ

-- `is_app` is whether the name of the program is that of the application.
pub record Process : Type 0 where
  pub create_time : ℕ
  pub is_app : Bool

abbrev pub difference : ℕ → ℕ → ℕ
difference a b = (a - b) + (b - a)

-- What becomes of the file of this program: written, only touched, or neither.
pub data Written : Type 0 where
  written : ℕ → Written
  touched nothing : Written

abbrev pub own_file : ℕ → Written → List LockFile
own_file pid (written create_time) = record { pid = some pid; create_time = create_time } ∷ []
own_file pid touched = record { pid = some pid; create_time = 0 } ∷ []
own_file pid nothing = []

module _ (is_frozen : Bool) (process : ℕ → Option Process) where
  unfoldable pub same_process : LockFile → Process → Bool
  same_process f proc =
      if not (f.create_time == 0) && ltb 1000 (difference f.create_time proc.create_time)
      then false
      else is_frozen && proc.is_app

  -- A lock file of a process that runs.
  unfoldable pub is_running : LockFile → Bool
  unfolding same_process
  is_running f = elim f.pid [
    | none ↦ false
    | some pid ↦ elim (process pid) [ none ↦ false | some proc ↦ same_process f proc ]
  ]

  -- The loop over the lock files: whether it ends, and the files that are left.
  pub check_locks : (LockFile → Bool) → List LockFile → Bool × List LockFile
  check_locks unlinks [] = (true, [])
  check_locks unlinks (f ∷ files) =
      let (free, rest) = check_locks unlinks files in
      if is_running f then (false, f ∷ files) else (free, if unlinks f then rest else f ∷ rest)

  pub acquire_lock : (LockFile → Bool) → ℕ → Written → List LockFile → Bool × List LockFile
  unfolding check_locks is_running
  acquire_lock unlinks pid w files =
      let (free, rest) = check_locks unlinks files in
      if free then (true, own_file pid w ++ rest) else (false, rest)

abbrev pub is_own : ℕ → LockFile → Bool
is_own pid f = elim f.pid [ none ↦ false | some n ↦ n == pid ]

-- `release_lock` of a program that has the lock.
pub release_lock : ℕ → List LockFile → List LockFile
release_lock pid [] = []
release_lock pid (f ∷ files) =
    let rest = release_lock pid files in if is_own pid f then rest else f ∷ rest
