-- ===== src/Fio/Lock/Table.antt =====
-- Descriptors that meet what `Lawful` asks of `open`, `flock` and `close`: a table, in which no number
-- of a descriptor is used again.
use linux_c_template.Prelude.{
  ℕ, ◌+◌, ◌≡◌, refl, Bool, true, false, not, ◌&&◌, Option, none, some, arith, inl, inr, subst,
}
use mathlib.Core.Option
use linux_c_template.Prelude.Tests.{ltb, ◌==◌, if◌then◌else◌, Bool-cases}
use linux_c_template.Fio.Lock.{Files, Others, Opened, Taken, Meanwhile, Lawful}

-- `owner p` is the descriptor that has the lock of `p`, if it is still open and still on that file.
pub record Table : Type 0 where
  pub used : ℕ
  pub names : ℕ → ℕ
  pub gone : ℕ → Bool
  pub owner : ℕ → Option ℕ

abbrev is_open : Table → ℕ → Bool
is_open s d = ltb d s.used && not (s.gone d)

abbrev is_owner : Option ℕ → ℕ → Bool
is_owner none d = false
is_owner (some o) d = o == d

abbrev holds : Table → ℕ → Bool
holds s d = is_open s d && is_owner (s.owner (s.names d)) d

abbrev open_file : ℕ → Table → Option (ℕ × Table)
open_file path s = some (
  s.used,
  record {
    used = s.used + 1;
    names = λ d. if d == s.used then path else s.names d;
    gone = λ d. if d == s.used then false else s.gone d;
    owner = λ p. if is_owner (s.owner p) s.used then none else s.owner p;
  },
)

-- Some other descriptor holds the lock of the file of `fd`.
abbrev taken : Option ℕ → Table → ℕ → Bool
taken none s fd = false
taken (some o) s fd = is_open s o && s.names o == s.names fd && not (o == fd)

abbrev flock_nb : ℕ → Table → Option Table
flock_nb fd s =
    if is_open s fd && not (taken (s.owner (s.names fd)) s fd)
    then some (record s { owner = λ p. if p == s.names fd then some fd else s.owner p })
    else none

abbrev flock_wait : ℕ → Table → Bool × Table
flock_wait fd s = elim (flock_nb fd s) [ none ↦ (false, s) | some t ↦ (true, t) ]

abbrev flock_un : ℕ → Table → Table
flock_un fd s = record s { owner = λ p. if is_owner (s.owner p) fd then none else s.owner p }

abbrev close : ℕ → Table → Table
close fd s = record s { gone = λ d. if d == fd then true else s.gone d }

abbrev pub files : Files
files = record {
  State = Table;
  is_open = is_open;
  file = λ s. s.names;
  holds = holds;
  open_file = open_file;
  flock_nb = flock_nb;
  flock_wait = flock_wait;
  flock_un = flock_un;
  close = close;
}

-- No descriptor is open yet.
abbrev pub empty : Table
empty = record { used = 3; names = λ d. 0; gone = λ d. true; owner = λ p. none }

open_file-Opened :
    (path fd : ℕ) (s t : Table) → open_file path s ≡ some (fd, t) → Opened files path fd s t
open_file-Opened path fd s t e =
    subst (λ r. Opened files path r.0 s r.1) (Option.some_inj.0 e)
      (record {
        fresh = ground arith;
        opened = ground arith;
        named = ground arith;
        unlocked = ground arith;
        others = record {
          still_open = λ d ne. ground arith;
          same_file = λ d ne. ground arith;
          still_holds = λ d ne. ground arith;
        };
      })

flock_nb-Taken : (fd : ℕ) (s t : Table) → flock_nb fd s ≡ some t → Taken files fd s t
flock_nb-Taken fd s t e =
    elim (Bool-cases (is_open s fd && not (taken (s.owner (s.names fd)) s fd))) [
      | inl can ↦
          subst (λ r. Taken files fd s r) (Option.some_inj.0 (rw can at e))
            (record {
              was_free = λ d h f. ground arith;
              has = ground arith;
              opened = refl;
              named = refl;
              others = record {
                still_open = λ d ne. refl;
                same_file = λ d ne. refl;
                still_holds = λ d ne. ground arith;
              };
            })
      | inr cannot ↦ cc (rw cannot at e)
    ]

flock_un-Others : (fd : ℕ) (s : Table) → Others files fd s (flock_un fd s)
flock_un-Others fd s = record {
  still_open = λ d ne. refl;
  same_file = λ d ne. refl;
  still_holds = λ d ne. ground arith;
}

close-Others : (fd : ℕ) (s : Table) → Others files fd s (close fd s)
close-Others fd s = record {
  still_open = λ d ne. ground arith;
  same_file = λ d ne. refl;
  still_holds = λ d ne. ground arith;
}

wait-Taken :
    (fd : ℕ) (s t : Table)
    → flock_wait fd s ≡ (true, t)
    → (v : Table) × Meanwhile files fd s v × Taken files fd v t
wait-Taken fd s t e = (
  s,
  record { opened = refl; named = refl; same_holds = refl },
  flock_nb-Taken fd s t (ground arith),
)

pub files-Lawful : Lawful files
files-Lawful = record {
  shut = λ s d e. ground arith;
  open_file-some = open_file-Opened;
  flock_nb-some = flock_nb-Taken;
  flock_wait-true = wait-Taken;
  flock_wait-false = λ fd s t e. ground arith;
  flock_un-others = flock_un-Others;
  close-shut = λ fd s. ground arith;
  close-others = close-Others;
}
