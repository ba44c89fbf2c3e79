-- ===== src/Tray/Exclusion.antt =====
-- One program has the lock at a time.
use tg_ws_proxy_rust.Prelude.{
  ℕ, ◌≡◌, refl, sym, ap, ◌∙◌, Bool, true, false, not, ◌&&◌, ◌||◌, List, [], ◌∷◌, Option, some, ltb,
  ◌==◌, ==_iff, if◌then◌else◌, inl, inr, Bool-cases, arith,
}
use tg_ws_proxy_rust.Tray.{
  LockFile, Process, difference, same_process, is_running, check_locks, Written, written,
  acquire_lock, release_lock,
}

abbrev pub any_running : (LockFile → Bool) → List LockFile → Bool
any_running running [] = false
any_running running (f ∷ files) = running f || any_running running files

module _ (is_frozen : Bool) (process : ℕ → Option Process) where
  check_locks-running :
      (unlinks : LockFile → Bool) (files : List LockFile)
      → (check_locks is_frozen process unlinks files).0
        ≡ not (any_running (is_running is_frozen process) files)
  unfolding check_locks
  check_locks-running unlinks [] = refl
  check_locks-running unlinks (f ∷ files) = elim (Bool-cases (is_running is_frozen process f)) [
    | inl e ↦ rw e refl
    | inr e ↦ rw e (check_locks-running unlinks files)
  ]

  check_locks-files :
      (files : List LockFile)
      → any_running (is_running is_frozen process) files ≡ false
      → (check_locks is_frozen process (λ f. true) files).1 ≡ []
  unfolding check_locks
  check_locks-files [] h = refl
  check_locks-files (f ∷ files) h = elim (Bool-cases (is_running is_frozen process f)) [
    | inl e ↦ let no : true ≡ false = rw e at h in absurd (cc)
    | inr e ↦ rw e (check_locks-files files (rw e at h))
  ]

  difference_self : (n : ℕ) → ltb 1000 (difference n n) ≡ false
  difference_self n = ground arith

  is_running_own :
      (pid create_time : ℕ) (proc : Process)
      → is_frozen ≡ true
      → process pid ≡ some proc
      → proc.create_time ≡ create_time
      → proc.is_app ≡ true
      → is_running is_frozen process (record { pid = some pid; create_time = create_time }) ≡ true
  unfolding is_running same_process
  is_running_own pid create_time proc frozen there started app =
      rw (there, is_running)
        (ap (λ b. if not (create_time == 0) && b then false else is_frozen && proc.is_app)
            (ap (λ n. ltb 1000 (difference create_time n)) started ∙ difference_self create_time)
          ∙ and_false_if (not (create_time == 0)) (is_frozen && proc.is_app)
          ∙ ap (λ b. b && proc.is_app) frozen
          ∙ app)
    where
      and_false_if : (b c : Bool) → (if b && false then false else c) ≡ c
      and_false_if true c = refl
      and_false_if false c = refl

  own_excludes :
      (unlinks : LockFile → Bool) (pid : ℕ) (w : Written) (f : LockFile)
      → is_running is_frozen process f ≡ true
      → acquire_lock is_frozen process unlinks pid w (f ∷ []) ≡ (false, f ∷ [])
  unfolding acquire_lock check_locks
  own_excludes unlinks pid w f h = rw h refl

  acquire_lock-free :
      (pid create_time : ℕ) (files : List LockFile)
      → any_running (is_running is_frozen process) files ≡ false
      → acquire_lock is_frozen process (λ f. true) pid (written create_time) files
        ≡ (true, record { pid = some pid; create_time = create_time } ∷ [])
  unfolding acquire_lock
  acquire_lock-free pid create_time files h =
      rw (check_locks-running (λ f. true) files, h, check_locks-files files h) refl

release_own :
    (pid create_time : ℕ)
    → release_lock pid (record { pid = some pid; create_time = create_time } ∷ []) ≡ []
unfolding release_lock
release_own pid create_time = rw ((==_iff pid pid).1 refl) refl

-- The program is a frozen one, the name of its process has the name of the application in it, its
-- process has the time that it wrote down, lock files can be removed, and none is of a program that
-- runs. Then it gets the lock; no other program gets it, and
-- what is there stays, as long as it has the lock; and it is free again after its release.
pub acquire_lock-excludes :
    (process : ℕ → Option Process) (pid other create_time : ℕ) (w : Written) (proc : Process)
    (files : List LockFile)
    → any_running (is_running true process) files ≡ false
    → process pid ≡ some proc
    → proc.create_time ≡ create_time
    → proc.is_app ≡ true
    → let acquire = acquire_lock true process (λ f. true) in
      let (got, held) = acquire pid (written create_time) files in
      (got ≡ true)
      × (acquire other w held ≡ (false, held))
      × ((acquire other w (release_lock pid held)).0 ≡ true)
unfolding acquire_lock check_locks
acquire_lock-excludes process pid other create_time w proc files idle there started app =
    let own : LockFile = record { pid = some pid; create_time = create_time } in
    let e = acquire_lock-free true process pid create_time files idle in
    let acquire = acquire_lock true process (λ f. true) in
    (
      ap (λ r. r.0) e,
      ap (λ r. acquire other w r.1) e
          ∙ own_excludes true process (λ f. true) other w own
              (is_running_own true process pid create_time proc refl there started app)
          ∙ sym (ap (λ r. (false, r.1)) e),
      ap (λ r. (acquire other w (release_lock pid r.1)).0) e
          ∙ ap (λ (fs : List LockFile). (acquire other w fs).0) (release_own pid create_time)
          ∙ free,
    )
  where
    free : (acquire_lock true process (λ f. true) other w []).0 ≡ true
    free = refl
