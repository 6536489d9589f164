-- ===== src/Threadwq/Wakeup.antt =====
-- A signal that nobody hears, in `wait4job` of template-v1/src/threadwq/threadwq.c.
use linux_c_template.Prelude.{ℕ, ◌≡◌, ◌≢◌, refl, [], ◌∷◌, ◌++◌, arith, ap}
use linux_c_template.Lfq.{Lfq}
use linux_c_template.Threadwq.{
  wait_lock, blocked, woken, unlocked, System, wake, init, Work, Add, works, adds, Reach, later,
}
use linux_c_template.Threadwq.WorkerSteps.{guard}

-- A worker in `pthread_cond_wait` leaves it only by a signal, a broadcast or a spurious wake-up.
pub blocked-Work :
    (lfq : Lfq) {s t : System lfq.Queue}
    → Work lfq s t
    → s.pc ≡ blocked
    → t ≡ record s { pc = woken }
blocked-Work lfq (Work.spurious at) b = refl
blocked-Work lfq w b = cc (b, guard w)

-- The state after `threadwq_add_job` of `j` and the worker's `pthread_cond_wait`.
abbrev pub slept : (lfq : Lfq) → ℕ → System lfq.Queue → System lfq.Queue
slept lfq j s = record s {
  queue = lfq.cds_lfq_enqueue j s.queue;
  enqueued = s.enqueued ++ j ∷ [];
  pc = blocked;
  mutex = unlocked;
}

-- For a job that is not `NULL`: in a reachable state in which the worker has found its queue empty and does not yet hold the
-- mutex, and the mutex is free, a whole call of `threadwq_add_job` may run before the worker waits:
-- its signal is lost, and the worker blocks with the job at the end of its queue.
pub lost_wakeup :
    (lfq : Lfq) (j : ℕ) {s : System lfq.Queue}
    → Reach lfq (init lfq) s
    → s.pc ≡ wait_lock
    → s.mutex ≡ unlocked
    → j ≢ 0
    → Reach lfq (init lfq) (slept lfq j s)
      × (lfq.contents (slept lfq j s).queue ≡ lfq.contents s.queue ++ j ∷ [])
lost_wakeup lfq j {s} r at free real = (slept_reached, lfq.contents-enqueue j s.queue)
  where
    added : Reach lfq (init lfq) (record s {
      queue = lfq.cds_lfq_enqueue j s.queue;
      enqueued = s.enqueued ++ j ∷ [];
      pc = wake s.pc;
      mutex = unlocked;
    })
    added =
        later
          (later
            (later (later r (adds (Add.enqueue j real))) (adds (Add.add_lock (omega arith) free)))
            (adds (Add.signal refl)))
          (adds (Add.add_unlock refl))

    slept_reached : Reach lfq (init lfq) (slept lfq j s)
    slept_reached =
        later (later added (works (Work.lock (ap wake at) refl))) (works (Work.block refl))
