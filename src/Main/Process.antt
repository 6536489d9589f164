-- ===== src/Main/Process.antt =====
-- A whole run of template-v1/src/main.c: its exit status, the hooks that it calls, and the lock file.
use linux_c_template.Prelude.{
  ℕ, ◌+◌, ◌≤◌, ◌≡◌, inl, inr, refl, Bool, true, false, ◌&&◌, none, List, ◌++◌, arith, ap, ◌∙◌,
}
use linux_c_template.Prelude.Tests.{if◌then◌else◌, Bool-cases, Option-cases, is_some}
use linux_c_template.Prelude.Outcome.{Outcome, ok, Returns, returns, Returns-bind, Returns-mono}
use linux_c_template.Initops.{Initops, exec_init, order_max, order_first}
use linux_c_template.Initops.Exits.{exits_of, exits_of-append}
use linux_c_template.Initops.Inits.{Accepts, inits_from, exec_init-Accepts}
use linux_c_template.Initops.Rollback.{inits_from-exits}
use linux_c_template.Fio.Lock.{Files, Lawful, fio_trylock}
use linux_c_template.Fio.Lock.Exclusive.{fio_trylock_held}
use linux_c_template.Main.{
  Opt, Program, Session, argparse, unlock_process, main_parsed, main, at_exit, process,
}
use linux_c_template.Main.Single.{Disarmed, Ended, is_ready, single_fails, single_locks}

module _ (fs : Files) where
  at_exit-calls : (p : Program fs) → (at_exit fs p).calls ≡ p.calls
  unfolding at_exit unlock_process
  at_exit-calls p = ground arith

  unlocked_at_exit :
      (p : Program fs)
      → p.process_lock_fd ≡ none
      → p.registered ≡ false
      → Disarmed fs p.files (at_exit fs p)
  unfolding at_exit
  unlocked_at_exit p unlocked unregistered =
      rw (unregistered, at_exit)
        (record {
          same = record { same_open = λ d. refl; same_holds = λ d. refl; same_file = λ d op. refl };
          kept = unlocked;
        })

  -- A program that has just been started.
  pub record IsFresh (p : Program fs) : Type 0 where
    pub unlocked : p.process_lock_fd ≡ none
    pub unregistered : p.registered ≡ false

  -- The program with the settings of its options.
  abbrev pub configured : List Opt → ℕ → Program fs → Program fs
  configured opts operands p = record p { settings = (argparse opts operands p.settings).1 }

  -- The program has its options, the lock and, if it was asked for, a session of its own.
  abbrev pub reaches_inits : ℕ → Session → List Opt → ℕ → Program fs → Bool
  reaches_inits path w opts operands p =
      (argparse opts operands p.settings).0
      && (is_some (fio_trylock fs path p.files).0 && is_ready fs w (configured opts operands p))

  module _ (lawful : Lawful fs) (path : ℕ) where
    main_parsed-Ended :
        (w : Session) (table : List Initops) (p : Program fs)
        → p.registered ≡ false
        → Returns (Ended fs lawful path w table p) (main_parsed fs path w table (ok tt) p)
    main_parsed-Ended w table p fresh = elim (Option-cases (fio_trylock fs path p.files).0) [
      | inl held ↦ single_fails fs lawful path w table (ok tt) p fresh held
      | inr (fd, got) ↦ single_locks fs lawful path w table p fd got
    ]

    -- The end of a process.
    pub record Finished (w : Session) (table : List Initops) (opts : List Opt) (operands : ℕ)
        (p : Program fs) (r : Bool × Program fs) : Type 0 where
      pub status : r.0 ≡ (reaches_inits path w opts operands p && (exec_init table).1)
      pub hooks : r.1.calls ≡ (
          if reaches_inits path w opts operands p then p.calls ++ (exec_init table).0 else p.calls)
      pub released : Disarmed fs p.files r.1

    pub process-Finished :
        (w : Session) (table : List Initops) (opts : List Opt) (operands : ℕ) (p : Program fs)
        → IsFresh p
        → Returns
            (Finished w table opts operands p)
            (process fs path w table (ok tt) opts operands p)
    unfolding process main
    process-Finished w table opts operands p fresh =
        elim (Bool-cases (argparse opts operands p.settings).0) [
          | inr refused ↦ rw refused (
              returns (record {
                status = rw refused refl;
                hooks = rw refused (at_exit-calls (configured opts operands p));
                released =
                    unlocked_at_exit (configured opts operands p) fresh.unlocked fresh.unregistered;
              }))
          | inl accepted ↦ rw accepted (
              Returns-bind
                (main_parsed-Ended w table (configured opts operands p) fresh.unregistered)
                λ (success, q) e. returns (record {
                  status = rw accepted e.status;
                  hooks = at_exit-calls q ∙ rw accepted e.hooks;
                  released = e.released;
                }))
        ]

    -- While some descriptor, of any process, holds the lock file, and `open`, `flock` and `close` keep
    -- their promises, a program that has just been started returns -1, whatever its options, its hooks
    -- and its benchmarks are: it calls no hook, and leaves every descriptor as it was.
    pub process_held :
        (w : Session) (table : List Initops) (tests : Outcome (Unit {0})) (opts : List Opt)
        (operands : ℕ) (p : Program fs) (d : ℕ)
        → IsFresh p
        → fs.holds p.files d ≡ true
        → fs.file p.files d ≡ path
        → Returns
            (λ (success, q). (success ≡ false) × (q.calls ≡ p.calls) × Disarmed fs p.files q)
            (process fs path w table tests opts operands p)
    unfolding process main
    process_held w table tests opts operands p d fresh h f =
        let held = fio_trylock_held fs lawful path d p.files h f in
        elim (Bool-cases (argparse opts operands p.settings).0) [
          | inr refused ↦ rw refused (
              returns (
                refl,
                at_exit-calls (configured opts operands p),
                unlocked_at_exit (configured opts operands p) fresh.unlocked fresh.unregistered,
              ))
          | inl accepted ↦ rw accepted (
              Returns-bind
                (single_fails fs lawful path w table tests (configured opts operands p)
                  fresh.unregistered held)
                λ (success, q) e.
                  returns
                    (e.status ∙ rw held refl, at_exit-calls q ∙ e.hooks ∙ rw held refl, e.released))
        ]

    -- When no `init` hook of the levels up to `INITOPS_ORDER_MAX` fails, the benchmarks return, and
    -- `open`, `flock` and `close` keep their promises, a program that has just been started ends without
    -- having called an `exit` hook.
    pub process-exits :
        (w : Session) (table : List Initops) (opts : List Opt) (operands : ℕ) (p : Program fs)
        (name : ℕ)
        → IsFresh p
        → ((k : ℕ) → k ≤ order_max → Accepts k table)
        → Returns
            (λ (success, q). exits_of name q.calls ≡ exits_of name p.calls)
            (process fs path w table (ok tt) opts operands p)
    process-exits w table opts operands p name fresh accepts =
        Returns-mono (process-Finished w table opts operands p fresh) λ (success, q) e.
          elim (Bool-cases (reaches_inits path w opts operands p)) [
            | inr early ↦
                let calls : q.calls ≡ p.calls = e.hooks ∙ rw early refl in ap (exits_of name) calls
            | inl reached ↦
                let inits = inits_from (order_max + 1) order_first table in
                let calls : q.calls ≡ p.calls ++ inits =
                  e.hooks ∙ rw (reached, exec_init-Accepts table accepts) refl in
                ap (exits_of name) calls
                ∙ exits_of-append name p.calls inits
                ∙ rw (inits_from-exits name (order_max + 1) order_first table) (omega arith)
          ]
