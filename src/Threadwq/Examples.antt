-- ===== src/Threadwq/Examples.antt =====
-- The theorems on template-v1/src/threadwq/threadwq.c at a run with one job, from start to exit.
use linux_c_template.Prelude.{
  zero, suc, false, ℕ, ◌+◌, ◌≡◌, ◌≢◌, refl, true, List, [], ◌∷◌, ◌++◌, arith,
}
use linux_c_template.Prelude.Tests.{◌==◌, if◌then◌else◌}
use linux_c_template.Prelude.Lists.{replicate, count}
use linux_c_template.Prelude.Outcome.{ok, aborted}
use linux_c_template.Lfq.{sequence}
use linux_c_template.Threadwq.Table.{
  Spawn, ThreadwqOps, Slot, Stage, init_multi, set_ops_multi, exec_multi, start_table,
}
use linux_c_template.Threadwq.Table.Started.{set_up, Started, start_table-Started}
use linux_c_template.Threadwq.{
  System, init, Work, Add, Kill, works, adds, kills, Reach, here, later, flushing, starting, head,
  poll, got, wait_lock, offline, done, absent, checking, joined, by_worker, unlocked,
}
use linux_c_template.Threadwq.Facts.{Inv, in_hand, in_flight, init-Inv}
use linux_c_template.Threadwq.Ending.{Calm}
use linux_c_template.Threadwq.Closing.{exit-closes}
use linux_c_template.Threadwq.Delivery.{started-enqueued, jobs_conserved}
use linux_c_template.Threadwq.Late.{late_jobs, exit-flushed}
use linux_c_template.Threadwq.Wakeup.{slept, lost_wakeup}
use linux_c_template.Threadwq.Jobs.{Run, nothing, jobs}
use linux_c_template.Threadwq.Jobs.Refines.{events, init-Run}

abbrev fresh : System (List ℕ)
fresh = record {
  exit = 0;
  exit_ack = 0;
  running = 0;
  busy_stat = 0;
  queue = [];
  mutex = unlocked;
  pc = starting;
  cnt = 0;
  busy = 0;
  adders = 0;
  killer = absent;
  enqueued = [];
  started = [];
  pending = [];
  finished = [];
}

fresh-init : init sequence ≡ fresh
unfolding init
fresh-init = refl

fresh-Reach : Reach sequence (init sequence) fresh
fresh-Reach = rw fresh-init here

-- The worker runs, and job 7 was added.
abbrev added : System (List ℕ)
added = record fresh { running = 1; pc = head; queue = 7 ∷ []; enqueued = 7 ∷ [] }

added-Reach : Reach sequence (init sequence) added
added-Reach =
    later
      (later
        (later
          (later (later fresh-Reach (works (Work.init_ok refl)))
            (adds (Add.enqueue 7 λ h. absurd (omega arith))))
          (adds (Add.add_lock refl refl)))
        (adds (Add.signal refl)))
      (adds (Add.add_unlock refl))

-- `threadwq_exit` has set `exit`.
abbrev stopping : System (List ℕ)
stopping = record added { exit = 1; killer = checking }

stopping-Reach : Reach sequence (init sequence) stopping
stopping-Reach =
    later
      (later
        (later
          (later (later added-Reach (kills (Kill.kill refl))) (kills (Kill.kill_lock refl refl)))
          (kills (Kill.kill_exit refl)))
        (kills (Kill.broadcast refl)))
      (kills (Kill.kill_unlock refl))

-- The worker has taken the job out of its queue.
abbrev holding : System (List ℕ)
holding = record stopping { queue = []; pc = got flushing 7 }

holding-Reach : Reach sequence (init sequence) holding
holding-Reach =
    later (later stopping-Reach (works (Work.leave refl (λ e. omega arith))))
      (works (Work.take refl refl))

-- RCU has the job.
abbrev handed : System (List ℕ)
handed = record holding { started = 7 ∷ []; pending = 7 ∷ []; pc = poll flushing }

handed-Reach : Reach sequence (init sequence) handed
handed-Reach = later (later holding-Reach (works (Work.cb_start refl))) (works (Work.call_rcu refl))

handed-flushed : Work sequence handed (record handed { pc = offline })
handed-flushed = Work.flushed refl refl

abbrev over : System (List ℕ)
over = record handed { pc = offline }

-- The worker has ended, and another job was added too late.
abbrev late : System (List ℕ)
late = record over { exit_ack = 1; pc = done; queue = 8 ∷ []; enqueued = 7 ∷ 8 ∷ []; adders = 1 }

late-Reach : Reach sequence over late
late-Reach =
    later (later here (works (Work.ack refl))) (adds (Add.enqueue 8 λ h. absurd (omega arith)))

append-Reach :
    {s t u : System (List ℕ)} → Reach sequence s t → Reach sequence t u → Reach sequence s u
append-Reach r here = r
append-Reach r (later q st) = later (append-Reach r q) st

abbrev ended : System (List ℕ)
ended = record late { killer = joined }

ended-Reach : Reach sequence (init sequence) ended
ended-Reach =
    later
      (later (append-Reach (later handed-Reach (works handed-flushed)) late-Reach)
        (kills (Kill.join refl (λ e. omega arith))))
      (kills (Kill.join_done refl refl))

started-enqueued_example : holding.enqueued ≡ holding.started ++ (7 ∷ [] ++ [])
started-enqueued_example = started-enqueued sequence holding-Reach

jobs_conserved_example :
    count 7 handed.enqueued
    ≡ count 7 handed.queue
      + count 7 (in_hand handed.pc)
      + count 7 (in_flight handed.pc)
      + count 7 handed.pending
      + count 7 handed.finished
jobs_conserved_example = jobs_conserved sequence handed-Reach 7

init-Run_example : Run nothing (events sequence ended-Reach) (jobs sequence ended)
init-Run_example = init-Run sequence ended-Reach

exit-flushed_example :
    (ended.pc ≡ done)
    × (ended.exit_ack ≡ 1)
    × (ended.mutex ≢ by_worker)
    × (ended.enqueued ≡ ended.started ++ late_jobs sequence ended-Reach)
    × (ended.queue ≡ late_jobs sequence ended-Reach)
exit-flushed_example = exit-flushed sequence ended-Reach refl

fresh-Inv : Inv sequence fresh
fresh-Inv = rw fresh-init at (init-Inv sequence)

-- The worker has looked at its empty queue.
abbrev looked : System (List ℕ)
looked = record fresh { running = 1; cnt = 1; pc = wait_lock }

looked-Reach : Reach sequence (init sequence) looked
looked-Reach =
    later
      (later (later fresh-Reach (works (Work.init_ok refl)))
        (works (Work.count refl refl (omega arith))))
      (works (Work.no_job refl refl))

lost_wakeup_example :
    Reach sequence (init sequence) (slept sequence 7 looked)
    × ((slept sequence 7 looked).queue ≡ looked.queue ++ 7 ∷ [])
lost_wakeup_example = lost_wakeup sequence 7 looked-Reach refl refl λ h. absurd (omega arith)

-- The third thread is refused.
abbrev two_of_three : ℕ → Spawn
two_of_three zero = Spawn.spawned false
two_of_three (suc zero) = Spawn.spawned false
two_of_three _ = Spawn.refused

two_of_three_sound : (j : ℕ) → two_of_three j ≢ Spawn.spawned true
two_of_three_sound zero e = cc
two_of_three_sound (suc zero) e = cc
two_of_three_sound (suc (suc j)) e = cc

abbrev both : ThreadwqOps
both = record { worker_init = true; worker_exit = true }

abbrev slots : List Slot
slots = replicate 3 (record { stage = Stage.online; ops = both })

start_table-Started_example :
    (t : List Slot) × (r : ℕ × List Slot) × (init_multi 3 slots ≡ ok (0, t))
    × (set_ops_multi both 3 t ≡ ok (replicate 3 (set_up Stage.idle both)))
    × (exec_multi two_of_three 3 0 (replicate 3 (set_up Stage.idle both)) ≡ ok r)
    × Started two_of_three both 3 0 r
    × (start_table two_of_three both 3 slots ≡ (if r.0 == 0 then ok r.1 else aborted))
start_table-Started_example =
    start_table-Started two_of_three both 3 slots two_of_three_sound refl refl refl

exit-closes_example :
    (t : System (List ℕ)) × Calm sequence looked t
    × (t.killer ≡ joined)
    × (t.pc ≡ done)
    × (t.exit_ack ≡ 1)
exit-closes_example = exit-closes sequence looked-Reach refl
