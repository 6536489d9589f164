-- ===== src/Manager.antt =====
-- template-v1/src/threadwq/threadwq_man.h, threadwq_man_ops.h, threadwq_man.c and
-- threadwq_man_rr.c: a manager that deals jobs out to a table of work queues. What it needs of a
-- queue is the list of the jobs added to it, the last at the end.
pub mod Bounds
pub mod RoundRobin
pub mod Idle
pub mod Threads
mod Examples
use linux_c_template.Prelude.{
  ℕ, zero, suc, ◌+◌, ◌%◌, ◌^◌, Bool, true, false, ◌||◌, Option, none, some, List, [], ◌∷◌, ◌++◌,
}
use linux_c_template.Prelude.Tests.{leb, ◌==◌, if◌then◌else◌}
use linux_c_template.Prelude.Lists.{get_elem?, set}
use linux_c_template.Prelude.Outcome.{
  Outcome, ok, aborted, fault, deadlocked, out_of_fuel, ◌>>=◌, ◌>>◌, bug_on,
}

-- `threadwq_man_ops_rr` and `threadwq_man_ops_rr4idle`, the two tables of callbacks
pub data Ops : Type 0 where
  rr rr4idle : Ops

-- `struct threadwq_man`
pub record Man : Type 0 where
  pub twq_pool : List (List ℕ)
  pub twq_pool_nr : ℕ
  pub ops : Ops
  pub twq_idx : ℕ

-- `&man->twq_pool[idx]` and `threadwq_add_job` on it; a fault beyond the table
unfoldable pub add_to : Man → ℕ → ℕ → Outcome Man
add_to man idx job = elim (get_elem? man.twq_pool idx) [
  | none ↦ fault
  | some q ↦ ok (record man { twq_pool = set man.twq_pool idx (q ++ job ∷ []) })
]

unfoldable pub rr_add_job : Man → ℕ → Outcome Man
unfolding add_to
rr_add_job man job =
    if leb man.twq_pool_nr man.twq_idx
    then add_to (record man { twq_idx = 0 }) 0 job
    else add_to (record man { twq_idx = (man.twq_idx + 1) % 2 ^ 32 }) man.twq_idx job

-- The loop of `rr4idle_add_job`, on fuel. `held n i` is what the `n`-th `pthread_mutex_trylock` of the
-- loop answers, on queue `i`: whether it fails.
unfoldable pub rr4idle_loop : (ℕ → ℕ → Bool) → ℕ → ℕ → ℕ → Man → ℕ → Outcome Man
unfolding add_to
rr4idle_loop held zero n idx man job = out_of_fuel
rr4idle_loop held (suc fuel) n idx man job =
    let i = if leb man.twq_pool_nr idx then 0 else idx in
    let rest = rr4idle_loop held fuel (n + 1) (i + 1) man job in
    elim (get_elem? man.twq_pool i) [
      | none ↦ fault
      | some _ ↦ if held n i then rest else add_to (record man { twq_idx = (i + 1) % 2 ^ 32 }) i job
    ]

unfoldable pub rr4idle_add_job : (ℕ → ℕ → Bool) → ℕ → Man → ℕ → Outcome Man
unfolding rr4idle_loop
rr4idle_add_job held fuel man job = rr4idle_loop held fuel 0 man.twq_idx man job

-- `cb_init`, for both tables of callbacks
unfoldable pub rr_init : Man → Man
rr_init man = record man { twq_idx = 0 }

-- `cb_exit`, for both
unfoldable pub rr_exit : Man → Man
rr_exit man = man

-- `threadwq_man_init`; `none` is `NULL`. `garbage` is what `twq_idx` held before.
unfoldable pub man_init : Option (List (List ℕ)) → ℕ → Option Ops → ℕ → Outcome Man
unfolding rr_init
man_init tbl nr none garbage = aborted
man_init none nr (some ops) garbage = aborted
man_init (some tbl) nr (some ops) garbage = do
  bug_on (nr == 0)
  ok (rr_init (record { twq_pool = tbl; twq_pool_nr = nr; ops = ops; twq_idx = garbage }))

-- `threadwq_man_add_job`
unfoldable pub man_add_job : (ℕ → ℕ → Bool) → ℕ → Man → ℕ → Outcome Man
unfolding rr_add_job rr4idle_add_job
man_add_job held fuel man job = elim man.ops [
  | rr ↦ rr_add_job man job
  | rr4idle ↦ rr4idle_add_job held fuel man job
]

-- `threadwq_man_exit`
unfoldable pub man_exit : Man → Man
unfolding rr_exit
man_exit man = rr_exit man

-- A client that adds one job after the other.
unfoldable pub rr_add_all : Man → List ℕ → Outcome Man
unfolding rr_add_job
rr_add_all man [] = ok man
rr_add_all man (j ∷ js) = do man ← rr_add_job man j; rr_add_all man js
