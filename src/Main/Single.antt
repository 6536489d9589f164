-- ===== src/Main/Single.antt =====
-- The lock file of template-v1/src/main.c, from `keep_single` to the handlers of `atexit`.
use linux_c_template.Prelude.{
  ℕ, ◌≡◌, inl, inr, refl, Bool, true, false, not, ◌&&◌, ◌||◌, Option, none, some, List, ◌++◌, arith,
  ap, ◌∙◌,
}
use mathlib.Core.Option
use linux_c_template.Prelude.Tests.{if◌then◌else◌, Bool-cases, is_some}
use linux_c_template.Prelude.Outcome.{Outcome, ok, Returns, returns}
use linux_c_template.Initops.{Initops, exec_init}
use linux_c_template.Fio.Lock.{Files, Lawful, fio_trylock}
use linux_c_template.Fio.Lock.Exclusive.{
  Same, Locked, Tried, fio_trylock-Tried, fio_trylock-fio_unlock,
}
use linux_c_template.Main.{
  Program, Session, trylock_process, unlock_process, keep_single, run_background, run_inits,
  main_parsed, at_exit,
}

-- The program holds the lock, and will release it when `main` returns.
pub record Armed (fs : Files) (path : ℕ) (s : fs.State) (q : Program fs) : Type 0 where
  pub fd : ℕ
  pub lock : Locked fs path fd s q.files
  pub kept : q.process_lock_fd ≡ some fd
  pub registered : q.registered ≡ true

-- The program holds no lock, and the descriptors are as they were.
pub record Disarmed (fs : Files) (s : fs.State) (q : Program fs) : Type 0 where
  pub same : Same fs s q.files
  pub kept : q.process_lock_fd ≡ none

abbrev pub is_ready : (fs : Files) → Session → Program fs → Bool
is_ready fs w p = not p.settings.opt_background || (w.setsid && w.daemon)

module _ (fs : Files) (path : ℕ) where
  Tried-some :
      (s : fs.State) (r : Option ℕ × fs.State) (fd : ℕ)
      → Tried fs path s r
      → r.0 ≡ some fd
      → Locked fs path fd s r.1
  Tried-some s (none, t) fd l e = cc
  Tried-some s (some d, t) fd l e = rw (← Option.some_inj.0 e) l

  Tried-none :
      (s : fs.State) (r : Option ℕ × fs.State) → Tried fs path s r → r.0 ≡ none → Same fs s r.1
  Tried-none s (none, t) same e = same
  Tried-none s (some d, t) l e = cc

  pub run_background-fst :
      (w : Session) (p : Program fs) → (run_background fs w p).0 ≡ is_ready fs w p
  unfolding run_background
  run_background-fst w p = ground arith

  -- `setsid` and `daemon` touch neither the lock nor the hooks.
  run_background-fields :
      (w : Session) (p : Program fs)
      → ((run_background fs w p).1.files ≡ p.files)
        × ((run_background fs w p).1.process_lock_fd ≡ p.process_lock_fd)
        × ((run_background fs w p).1.registered ≡ p.registered)
        × ((run_background fs w p).1.calls ≡ p.calls)
  unfolding run_background
  run_background-fields w p = ground arith

  run_background-Armed :
      (w : Session) (s : fs.State) (p : Program fs)
      → Armed fs path s p
      → Armed fs path s (run_background fs w p).1
  run_background-Armed w s p a =
      let (same_files, same_fd, same_registered, _) = run_background-fields w p in
      record {
        fd = a.fd;
        lock = rw same_files a.lock;
        kept = same_fd ∙ a.kept;
        registered = same_registered ∙ a.registered;
      }

  keep_single-none :
      (p : Program fs)
      → (fio_trylock fs path p.files).0 ≡ none
      → keep_single fs path p
        ≡ (false, record p { process_lock_fd = none; files = (fio_trylock fs path p.files).1 })
  unfolding keep_single trylock_process
  keep_single-none p e = rw (e, is_some) refl

  keep_single-some :
      (p : Program fs) (fd : ℕ)
      → (fio_trylock fs path p.files).0 ≡ some fd
      → keep_single fs path p ≡ (
        true,
        record p {
          process_lock_fd = some fd;
          files = (fio_trylock fs path p.files).1;
          registered = true;
        },
      )
  unfolding keep_single trylock_process
  keep_single-some p fd e = rw (e, is_some) refl

module _ (fs : Files) (lawful : Lawful fs) (path : ℕ) where
  Armed-at_exit : (s : fs.State) (q : Program fs) → Armed fs path s q → Disarmed fs s (at_exit fs q)
  unfolding at_exit unlock_process
  Armed-at_exit s q a =
      rw (a.registered, a.kept, at_exit)
        (record { same = fio_trylock-fio_unlock fs lawful path a.fd s q.files a.lock; kept = refl })

  -- How the process ends, when the benchmarks return.
  pub record Ended (w : Session) (table : List Initops) (p : Program fs) (r : Bool × Program fs)
      : Type 0 where
    pub status :
        r.0 ≡ (is_some (fio_trylock fs path p.files).0 && is_ready fs w p && (exec_init table).1)
    pub hooks : r.1.calls ≡ (
        if is_some (fio_trylock fs path p.files).0 && is_ready fs w p
        then p.calls ++ (exec_init table).0
        else p.calls)
    pub released : Disarmed fs p.files (at_exit fs r.1)

  pub single_fails :
      (w : Session) (table : List Initops) (tests : Outcome (Unit {0})) (p : Program fs)
      → p.registered ≡ false
      → (fio_trylock fs path p.files).0 ≡ none
      → Returns (Ended w table p) (main_parsed fs path w table tests p)
  unfolding main_parsed at_exit
  single_fails w table tests p fresh held =
      let tried = fio_trylock-Tried fs lawful path p.files in
      rw (keep_single-none fs path p held) (
        returns (record {
          status = rw held refl;
          hooks = rw held refl;
          released = rw fresh (record {
            same = Tried-none fs path p.files (fio_trylock fs path p.files) tried held;
            kept = refl;
          });
        }))

  pub single_locks :
      (w : Session) (table : List Initops) (p : Program fs) (fd : ℕ)
      → (fio_trylock fs path p.files).0 ≡ some fd
      → Returns (Ended w table p) (main_parsed fs path w table (ok tt) p)
  unfolding main_parsed run_inits
  single_locks w table p fd got = elim (Bool-cases (is_ready fs w p)) [
    | inr alone ↦
        rw (keep_single-some fs path p fd got, run_background-fst fs path w single ∙ alone)
          (returns (record {
            status = rw (got, is_some, alone) refl;
            hooks = rw (got, is_some, alone) quiet;
            released = Armed-at_exit p.files _ later;
          }))
    | inl goes_on ↦ elim (Bool-cases (exec_init table).1) [
      | inl ready ↦
          rw
            (
              keep_single-some fs path p fd got,
              run_background-fst fs path w single ∙ goes_on,
              ready,
            )
            (returns (record {
              status = rw (got, is_some, goes_on, ready) refl;
              hooks = rw (got, is_some, goes_on) (ap (λ l. l ++ (exec_init table).0) quiet);
              released = Armed-at_exit p.files _ (hooked);
            }))
      | inr failed ↦
          rw
            (
              keep_single-some fs path p fd got,
              run_background-fst fs path w single ∙ goes_on,
              failed,
            )
            (returns (record {
              status = rw (got, is_some, goes_on, failed) refl;
              hooks = rw (got, is_some, goes_on) (ap (λ l. l ++ (exec_init table).0) quiet);
              released = Armed-at_exit p.files _ hooked;
            }))
    ]
  ]
    where
      single : Program fs
      single = record p {
        process_lock_fd = some fd;
        files = (fio_trylock fs path p.files).1;
        registered = true;
      }

      quiet : (run_background fs w single).1.calls ≡ p.calls
      quiet = (run_background-fields fs path w single).3

      armed : Armed fs path p.files single
      armed = record {
        fd = fd;
        lock =
            Tried-some fs path p.files (fio_trylock fs path p.files) fd
              (fio_trylock-Tried fs lawful path p.files) got;
        kept = refl;
        registered = refl;
      }

      later : Armed fs path p.files (run_background fs w single).1
      later = run_background-Armed fs path w p.files single armed

      hooked : Armed fs path p.files (record (run_background fs w single).1 {
        calls = (run_background fs w single).1.calls ++ (exec_init table).0;
      })
      hooked = record {
        fd = later.fd;
        lock = later.lock;
        kept = later.kept;
        registered = later.registered;
      }
