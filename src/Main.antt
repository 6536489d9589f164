-- ===== src/Main.antt =====
-- template-v1/src/main.c: the options, the lock file that keeps the program single, the init hooks,
-- and what happens when `main` returns. The benchmarks are a parameter here.
pub mod Options
pub mod Single
pub mod Process
pub mod Client
pub mod Writer
pub mod Solo
mod Examples
use linux_c_template.Prelude.{
  ℕ, ◌≡◌, Bool, true, false, not, Option, none, some, List, [], ◌∷◌, ◌++◌,
}
use linux_c_template.Prelude.Tests.{ltb, is_some, if◌then◌else◌}
use linux_c_template.Prelude.Outcome.{
  Outcome, ok, aborted, fault, deadlocked, out_of_fuel, ◌>>=◌, ◌>>◌,
}
use linux_c_template.Lgu.Stdmsg.{Tune, tune, stdmsg_lv_none}
use linux_c_template.Initops.{Initops, Call, exec_init}
use linux_c_template.Fio.Lock.{Files, fio_trylock, fio_unlock}

-- What `getopt_long` returns for one option. `c` and `e`, which its short options allow, are `other`,
-- and so is `?`.
pub data Opt : Type 0 where
  background verbose quiet help other : Opt

-- `opt_background` and `stdmsg_lv`
pub record Settings : Type 0 where
  pub opt_background : Bool
  pub stdmsg_lv : ℕ

-- The loop of `argparse`, and whether it goes on behind the loop.
unfoldable pub argparse_loop : List Opt → Settings → Bool × Settings
unfolding tune
argparse_loop [] st = (true, st)
argparse_loop (background ∷ opts) st = argparse_loop opts (record st { opt_background = true })
argparse_loop (quiet ∷ opts) st =
    argparse_loop opts (record st { stdmsg_lv = tune (Tune.dec) st.stdmsg_lv })
argparse_loop (verbose ∷ opts) st =
    argparse_loop opts (record st { stdmsg_lv = tune (Tune.inc) st.stdmsg_lv })
argparse_loop (help ∷ opts) st = (false, st)
argparse_loop (other ∷ opts) st = (false, st)

-- `argparse`, and whether it returns 0. `operands` counts the arguments that are no options.
unfoldable pub argparse : List Opt → ℕ → Settings → Bool × Settings
unfolding argparse_loop
argparse opts operands st =
    let (parsed, st') = argparse_loop opts st in
    if parsed then (not (ltb 0 operands), st') else (false, st')

-- What `setsid` and `daemon` answer: whether they succeed.
pub record Session : Type 0 where
  pub setsid : Bool
  pub daemon : Bool

module _ (fs : Files) where
  -- The statics of main.c with the descriptors of all processes. `registered` is whether
  -- `unlock_process` was given to `atexit`; `calls` are the hooks that were called.
  pub record Program : Type 0 where
    pub settings : Settings
    pub process_lock_fd : Option ℕ
    pub registered : Bool
    pub files : fs.State
    pub calls : List Call

  -- `trylock_process`, and whether it returns 0
  unfoldable pub trylock_process : ℕ → Program → Bool × Program
  trylock_process path p =
      let (fd, t) = fio_trylock fs path p.files in
      (is_some fd, record p { process_lock_fd = fd; files = t })

  unfoldable pub unlock_process : Program → Program
  unfolding fio_unlock
  unlock_process p = elim p.process_lock_fd [
    | none ↦ p
    | some fd ↦ record p { process_lock_fd = none; files = (fio_unlock fs (some fd) p.files).1 }
  ]

  -- `keep_single`, and whether it returns 0
  unfoldable pub keep_single : ℕ → Program → Bool × Program
  unfolding trylock_process
  keep_single path p =
      let (locked, q) = trylock_process path p in
      if locked then (true, record q { registered = true }) else (false, q)

  -- `if (opt_background) …`, and whether `main` goes on. The child of `daemon` keeps the descriptors.
  unfoldable pub run_background : Session → Program → Bool × Program
  unfolding tune
  run_background w p =
      if not p.settings.opt_background
      then (true, p)
      else if not w.setsid
      then (false, p)
      else if not w.daemon
      then (false, p)
      else (
        true,
        record p {
          settings = record p.settings {
            stdmsg_lv = tune (Tune.set stdmsg_lv_none) p.settings.stdmsg_lv;
          };
        },
      )

  -- `initops_exec_init`, and whether it returns 0
  unfoldable pub run_inits : List Initops → Program → Bool × Program
  run_inits table p =
      let (calls, done) = exec_init table in (done, record p { calls = p.calls ++ calls })

  -- `main` behind `argparse`, and whether it returns 0. `tests` is the run of the benchmarks.
  unfoldable pub main_parsed :
      ℕ → Session → List Initops → Outcome (Unit {0}) → Program → Outcome (Bool × Program)
  main_parsed path w table tests p =
      let (single, p) = keep_single path p in
      if not single
      then ok (false, p)
      else let (goes_on, p) = run_background w p in
        if not goes_on
        then ok (false, p)
        else let (ready, p) = run_inits table p in
          if not ready then ok (false, p) else (do tests; ok (true, p))

  -- `main`, and whether it returns 0
  unfoldable pub main :
      ℕ
      → Session
      → List Initops
      → Outcome (Unit {0})
      → List Opt
      → ℕ
      → Program
      → Outcome (Bool × Program)
  main path w table tests opts operands p =
      let (parsed, st) = argparse opts operands p.settings in
      if not parsed
      then ok (false, record p { settings = st })
      else main_parsed path w table tests (record p { settings = st })

  -- The handlers of `atexit`, which run when `main` has returned.
  unfoldable pub at_exit : Program → Program
  unfolding unlock_process
  at_exit p = if p.registered then unlock_process p else p

  -- The process from its start to its end.
  unfoldable pub process :
      ℕ
      → Session
      → List Initops
      → Outcome (Unit {0})
      → List Opt
      → ℕ
      → Program
      → Outcome (Bool × Program)
  process path w table tests opts operands p = do
    (success, q) ← main path w table tests opts operands p
    ok (success, at_exit q)
