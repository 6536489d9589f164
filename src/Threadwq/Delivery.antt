-- ===== src/Threadwq/Delivery.antt =====
-- What the work queue of template-v1/src/threadwq/threadwq.c does with the jobs that it is given.
use linux_c_template.Prelude.Lists.{count, count-append}
use linux_c_template.Prelude.{
  ℕ, ◌+◌, ◌≡◌, ◌≢◌, ◌↔◌, refl, [], ◌++◌, arith, append-nil, ap, sym, ◌∙◌, Bool, true, false,
}
use linux_c_template.Lfq.{Lfq}
use linux_c_template.Threadwq.{
  Pc, starting, crashed, offline, done, by_worker, absent, joined, System, init, Work, Add, Kill,
  Step, works, adds, kills, grace, Reach, here, later,
}
use linux_c_template.Threadwq.Facts.{in_hand, in_flight, leaving}
use linux_c_template.Threadwq.WorkerSteps.{guard}
use linux_c_template.Threadwq.Invariant.{Reach-Inv}

-- A thread outside the worker's own code.
abbrev pub is_over : Pc → Bool
is_over offline = true
is_over done = true
is_over _ = false

module _ (lfq : Lfq) where
  -- In every reachable state the jobs that were added are, in the order of `threadwq_add_job`, those
  -- handed to `cb_start`, then the one in the worker's hands, then those in the queue: jobs start
  -- first in first out, none is dropped and none starts twice.
  pub started-enqueued :
      {s : System lfq.Queue}
      → Reach lfq (init lfq) s
      → s.enqueued ≡ s.started ++ (in_hand s.pc ++ lfq.contents s.queue)
  started-enqueued r = (Reach-Inv lfq r).ordered

  -- In every reachable state a job was added as often as it is queued, in the worker's hands before
  -- or after `cb_start`, waiting for RCU, or finished. So `cb_finish` runs at most once for each
  -- time that a job is added, and no job is lost on the way to it.
  pub jobs_conserved :
      {s : System lfq.Queue}
      → Reach lfq (init lfq) s
      → (j : ℕ)
      → count j s.enqueued
        ≡ count j (lfq.contents s.queue)
          + count j (in_hand s.pc)
          + count j (in_flight s.pc)
          + count j s.pending
          + count j s.finished
  jobs_conserved {s} r j =
      let inv = Reach-Inv lfq r in
      omega (
        arith,
        inv.accounted j,
        ap (count j) inv.ordered,
        count-append j s.started (in_hand s.pc ++ lfq.contents s.queue),
        count-append j (in_hand s.pc) (lfq.contents s.queue),
      )

  -- When the worker goes offline, every job that was added so far has been started.
  pub flushed-all :
      {s t : System lfq.Queue}
      → Reach lfq (init lfq) s
      → Work lfq s t
      → t.pc ≡ offline
      → t.started ≡ t.enqueued
  flushed-all {s} r (Work.flushed at e) o =
      let left : in_hand s.pc ++ lfq.contents s.queue ≡ [] =
        rw (at, lfq.contents-dequeue_none s.queue e) refl in
      sym ((Reach-Inv lfq r).ordered ∙ rw left (append-nil s.started))
  flushed-all r w o = cc

  pub over-Step :
      {s t : System lfq.Queue}
      → Step lfq s t
      → is_over s.pc ≡ true
      → (is_over t.pc ≡ true) × (t.started ≡ s.started)
  over-Step (works (Work.ack at)) o = (refl, refl)
  over-Step (works w) o = ground (arith, guard w)
  over-Step (adds (Add.signal e)) o = ground arith
  over-Step (kills (Kill.broadcast e)) o = ground arith
  over-Step (adds a) o = (o, refl)
  over-Step (kills k) o = (o, refl)
  over-Step (grace j m) o = (o, refl)

  -- Once the worker is offline, it stays offline and starts no job, whatever is added.
  pub over-Reach :
      {s t : System lfq.Queue}
      → Reach lfq s t
      → is_over s.pc ≡ true
      → (is_over t.pc ≡ true) × (t.started ≡ s.started)
  over-Reach here o = (o, refl)
  over-Reach (later r st) o =
      let (o', same) = over-Reach r o in let (o'', again) = over-Step st o' in (o'', again ∙ same)

  -- When `threadwq_exit` has returned from `pthread_join`, the worker has acknowledged and ended, it
  -- holds no job, and the mutex is not in its hands. What was added and not started is in the queue.
  pub exit-joined :
      {s : System lfq.Queue}
      → Reach lfq (init lfq) s
      → s.killer ≡ joined
      → (s.pc ≡ done)
        × (s.exit_ack ≡ 1)
        × (s.mutex ≢ by_worker)
        × (s.enqueued ≡ s.started ++ lfq.contents s.queue)
  exit-joined {s} r k =
      let inv = Reach-Inv lfq r in
      let ended : s.pc ≡ done = inv.control.joins (rw k refl) in
      (
        ended,
        ground (arith, inv.control.acked),
        ground (arith, inv.control.mutex_worker),
        rw ended at inv.ordered,
      )

  -- The worker leaves its loop, and `exit` is set, only after `threadwq_exit` was called; and
  -- `running`, for which `threadwq_exec` waits, is set exactly when `worker_init` has succeeded.
  pub lifecycle :
      {s : System lfq.Queue}
      → Reach lfq (init lfq) s
      → (leaving s.pc ≡ true → s.killer ≢ absent)
        × (s.exit ≢ 0 → s.killer ≢ absent)
        × ((s.running ≡ 1) ↔ ((s.pc ≢ starting) × (s.pc ≢ crashed)))
  lifecycle {s} r =
      let control = (Reach-Inv lfq r).control in
      (
        ground (arith, control.leaves),
        ground (arith, control.exits),
        ground (arith, control.running),
      )
