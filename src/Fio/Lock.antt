-- ===== src/Fio/Lock.antt =====
-- template-v1/src/lgu/fio/fio_lock.c: a file that at most one open descriptor holds locked. What
-- `open`, `flock` and `close` do is a parameter.
pub mod Exclusive
pub mod Waits
pub mod Table
mod Examples
use linux_c_template.Prelude.{ℕ, ◌≡◌, ◌≢◌, Bool, true, false, Option, none, some}
use linux_c_template.Prelude.Tests.{if◌then◌else◌}

-- The open descriptors of all processes, as their manual pages describe them. A path is a number. A
-- descriptor that is `open` names a file, and may hold the lock of that file.
pub record Files : Type 1 where
  pub State : Type 0
  pub is_open : State → ℕ → Bool
  pub file : State → ℕ → ℕ
  pub holds : State → ℕ → Bool
  pub open_file : ℕ → State → Option (ℕ × State)
  pub flock_nb : ℕ → State → Option State
  pub flock_wait : ℕ → State → Bool × State
  pub flock_un : ℕ → State → State
  pub close : ℕ → State → State

-- The other descriptors are as they were.
pub record Others (fs : Files) (fd : ℕ) (s t : fs.State) : Type 0 where
  pub still_open : (d : ℕ) → d ≢ fd → fs.is_open t d ≡ fs.is_open s d
  pub same_file : (d : ℕ) → d ≢ fd → fs.file t d ≡ fs.file s d
  pub still_holds : (d : ℕ) → d ≢ fd → fs.holds t d ≡ fs.holds s d

-- A new descriptor for `path`, which holds no lock.
pub record Opened (fs : Files) (path fd : ℕ) (s t : fs.State) : Type 0 where
  pub fresh : fs.is_open s fd ≡ false
  pub opened : fs.is_open t fd ≡ true
  pub named : fs.file t fd ≡ path
  pub unlocked : fs.holds t fd ≡ false
  pub others : Others fs fd s t

-- The lock was free, and `fd` has it.
pub record Taken (fs : Files) (fd : ℕ) (s t : fs.State) : Type 0 where
  pub was_free : (d : ℕ) → fs.holds s d ≡ true → fs.file s d ≡ fs.file s fd → d ≡ fd
  pub has : fs.holds t fd ≡ true
  pub opened : fs.is_open t fd ≡ fs.is_open s fd
  pub named : fs.file t fd ≡ fs.file s fd
  pub others : Others fs fd s t

-- While a call waits, other processes open, lock and close; the descriptor of the call stays as it is.
pub record Meanwhile (fs : Files) (fd : ℕ) (s t : fs.State) : Type 0 where
  pub opened : fs.is_open t fd ≡ fs.is_open s fd
  pub named : fs.file t fd ≡ fs.file s fd
  pub same_holds : fs.holds t fd ≡ fs.holds s fd

-- What the calls promise. A descriptor that is not open holds nothing. `flock` with `LOCK_NB` takes the
-- lock now or fails, and changes nothing when it fails; without `LOCK_NB` it waits, and takes the lock
-- or is interrupted.
pub record Lawful (fs : Files) : Type 0 where
  pub shut : (s : fs.State) (d : ℕ) → fs.is_open s d ≡ false → fs.holds s d ≡ false
  pub open_file-some :
      (path fd : ℕ) (s t : fs.State) → fs.open_file path s ≡ some (fd, t) → Opened fs path fd s t
  pub flock_nb-some : (fd : ℕ) (s t : fs.State) → fs.flock_nb fd s ≡ some t → Taken fs fd s t
  pub flock_wait-true :
      (fd : ℕ) (s t : fs.State)
      → fs.flock_wait fd s ≡ (true, t)
      → (v : fs.State) × Meanwhile fs fd s v × Taken fs fd v t
  pub flock_wait-false :
      (fd : ℕ) (s t : fs.State) → fs.flock_wait fd s ≡ (false, t) → Meanwhile fs fd s t
  pub flock_un-others : (fd : ℕ) (s : fs.State) → Others fs fd s (fs.flock_un fd s)
  pub close-shut : (fd : ℕ) (s : fs.State) → fs.is_open (fs.close fd s) fd ≡ false
  pub close-others : (fd : ℕ) (s : fs.State) → Others fs fd s (fs.close fd s)

module _ (fs : Files) where
  -- `fio_lock`; `none` is -1
  unfoldable pub fio_lock : ℕ → fs.State → Option ℕ × fs.State
  fio_lock path s = elim (fs.open_file path s) [
    | none ↦ (none, s)
    | some (fd, t) ↦
        let (taken, u) = fs.flock_wait fd t in if taken then (some fd, u) else (none, fs.close fd u)
  ]

  -- `fio_trylock`
  unfoldable pub fio_trylock : ℕ → fs.State → Option ℕ × fs.State
  fio_trylock path s = elim (fs.open_file path s) [
    | none ↦ (none, s)
    | some (fd, t) ↦ elim (fs.flock_nb fd t) [
      | none ↦ (none, fs.close fd t)
      | some u ↦ (some fd, u)
    ]
  ]

  -- `fio_unlock`; `none` is a negative descriptor. The answer is whether it returns 0.
  unfoldable pub fio_unlock : Option ℕ → fs.State → Bool × fs.State
  fio_unlock none s = (false, s)
  fio_unlock (some fd) s = (true, fs.close fd (fs.flock_un fd s))
