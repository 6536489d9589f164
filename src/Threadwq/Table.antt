-- ===== src/Threadwq/Table.antt =====
-- The functions of template-v1/src/threadwq/threadwq.c that start a table of work
-- queues. Of each queue they look at whether it has a worker.
pub mod Started
use linux_c_template.Prelude.{ℕ, zero, suc, ◌+◌, Bool, true, false, not, ◌&&◌, ◌||◌, List, [], ◌∷◌}
use linux_c_template.Prelude.Tests.{◌==◌, if◌then◌else◌}
use linux_c_template.Prelude.Outcome.{Outcome, ok, fault, ◌>>=◌, ◌>>◌, bug_on}

-- `struct threadwq_ops`: which of the two functions are set
pub record ThreadwqOps : Type 0 where
  pub worker_init : Bool
  pub worker_exit : Bool

-- The worker: not yet created, or serving.
pub data Stage : Type 0 where
  idle online : Stage

pub record Slot : Type 0 where
  pub stage : Stage
  pub ops : ThreadwqOps

-- What `pthread_create` answers, and whether `worker_init` fails in the new thread.
pub data Spawn : Type 0 where
  refused : Spawn
  spawned : (init_fails : Bool) → Spawn

-- `threadwq_init`, which always returns 0
unfoldable pub init_slot : Slot → Slot
init_slot q = record { stage = idle; ops = record { worker_init = false; worker_exit = false } }

-- `threadwq_set_ops`
unfoldable pub set_ops : ThreadwqOps → Slot → Outcome Slot
set_ops ops q = do bug_on (not ops.worker_exit || not ops.worker_init); ok (record q { ops = ops })

-- `threadwq_exec`, and whether it fails. A worker whose `worker_init` fails writes through `NULL`.
unfoldable pub exec : Spawn → Slot → Outcome (Bool × Slot)
exec refused q = ok (true, q)
exec (spawned init_fails) q =
    if q.ops.worker_init && init_fails then fault else ok (false, record q { stage = online })

-- `threadwq_init_multi` and what it returns; its branch for a failed `threadwq_init` is never taken. A
-- table that is too short is a fault, here and below.
unfoldable pub init_multi : ℕ → List Slot → Outcome (ℕ × List Slot)
unfolding init_slot
init_multi zero qs = ok (0, qs)
init_multi (suc n) [] = fault
init_multi (suc n) (q ∷ qs) = do (failed, qs) ← init_multi n qs; ok (failed, init_slot q ∷ qs)

-- `threadwq_set_ops_multi`
unfoldable pub set_ops_multi : ThreadwqOps → ℕ → List Slot → Outcome (List Slot)
unfolding set_ops
set_ops_multi ops zero qs = ok qs
set_ops_multi ops (suc n) [] = fault
set_ops_multi ops (suc n) (q ∷ qs) = do q ← set_ops ops q; qs ← set_ops_multi ops n qs; ok (q ∷ qs)

-- The loop of `threadwq_exec_multi` over `n` queues from index `i` on: the number of queues that it
-- did not start, which it returns with a minus sign.
unfoldable pub exec_multi : (ℕ → Spawn) → ℕ → ℕ → List Slot → Outcome (ℕ × List Slot)
unfolding exec
exec_multi spawn zero i qs = ok (0, qs)
exec_multi spawn (suc n) i [] = fault
exec_multi spawn (suc n) i (q ∷ qs) = do
  let rest = exec_multi spawn n (i + 1) qs
  (failed, q) ← exec (spawn i) q
  if failed then ok (suc n, q ∷ qs) else (do (missing, qs) ← rest; ok (missing, q ∷ qs))

-- How template-v1/src/main.c starts a table, from `threadwq_init_multi` to `threadwq_exec_multi`
unfoldable pub start_table : (ℕ → Spawn) → ThreadwqOps → ℕ → List Slot → Outcome (List Slot)
unfolding init_multi set_ops_multi exec_multi
start_table spawn ops nr qs = do
  (failed, qs) ← init_multi nr qs
  bug_on (not (failed == 0))
  qs ← set_ops_multi ops nr qs
  (missing, qs) ← exec_multi spawn nr 0 qs
  bug_on (not (missing == 0))
  ok qs
