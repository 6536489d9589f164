-- ===== src/Threadwq/WorkerSteps.antt =====
-- Each step of `thread_func` of template-v1/src/threadwq/threadwq.c keeps the invariant.
use linux_c_template.Prelude.Lists.{count-append}
use linux_c_template.Prelude.{◌≡◌, [], ◌∷◌, arith, append_assoc, sym, ◌∙◌}
use linux_c_template.Lfq.{Lfq}
use linux_c_template.Threadwq.{
  serving, flushing, Pc, starting, head, poll, got, ran, wait_lock, wait_cond, blocked, woken,
  wait_unlock, offline, System, Work,
}
use linux_c_template.Threadwq.Facts.{Ordered, Accounted, Control}

-- Where a step of the worker starts.
abbrev pub source : {lfq : Lfq} {s t : System lfq.Queue} → Work lfq s t → Pc
source (Work.init_ok _) = starting
source (Work.init_fails _) = starting
source (Work.leave _ _) = head
source (Work.count _ _ _) = head
source (Work.stat _ _ _) = head
source (Work.take {ph} _ _) = poll ph
source (Work.no_job _ _) = poll serving
source (Work.flushed _ _) = poll flushing
source (Work.cb_start {ph} {j} _) = got ph j
source (Work.call_rcu {ph} {j} _) = ran ph j
source (Work.lock _ _) = wait_lock
source (Work.block _) = wait_cond
source (Work.spurious _) = blocked
source (Work.relock _ _) = woken
source (Work.unlock _) = wait_unlock
source (Work.ack _) = offline

pub guard : {lfq : Lfq} {s t : System lfq.Queue} (w : Work lfq s t) → s.pc ≡ source w
guard (Work.init_ok at) = at
guard (Work.init_fails at) = at
guard (Work.leave at _) = at
guard (Work.count at _ _) = at
guard (Work.stat at _ _) = at
guard (Work.take at _) = at
guard (Work.no_job at _) = at
guard (Work.flushed at _) = at
guard (Work.cb_start at) = at
guard (Work.call_rcu at) = at
guard (Work.lock at _) = at
guard (Work.block at) = at
guard (Work.spurious at) = at
guard (Work.relock at _) = at
guard (Work.unlock at) = at
guard (Work.ack at) = at

module _ (lfq : Lfq) where
  pub Work-Ordered : {s t : System lfq.Queue} → Work lfq s t → Ordered lfq s → Ordered lfq t
  Work-Ordered (Work.take {j = j} {q} at e) h = rw (at, lfq.contents-dequeue _ j q e) at h
  Work-Ordered {s} (Work.cb_start {j = j} at) h =
      (rw at at h) ∙ sym (append_assoc s.started (j ∷ []) (lfq.contents s.queue))
  Work-Ordered (Work.flushed at e) h = ground (arith)
  Work-Ordered w h = ground (arith, guard w)

  pub Work-Accounted : {s t : System lfq.Queue} → Work lfq s t → Accounted lfq s → Accounted lfq t
  Work-Accounted {s} (Work.cb_start {j = i} at) h j =
      ground (arith, h j, count-append j s.started (i ∷ []))
  Work-Accounted w h j = ground (arith, guard w, h j)

  pub Work-Control : {s t : System lfq.Queue} → Work lfq s t → Control lfq s → Control lfq t
  Work-Control (Work.leave at e) h = ground arith
  Work-Control (Work.count at e f) h = ground arith
  Work-Control (Work.stat at e f) h = ground arith
  Work-Control (Work.take {ph = serving} at e) h = ground arith
  Work-Control (Work.take {ph = flushing} at e) h = ground arith
  Work-Control (Work.cb_start {ph = serving} at) h = ground arith
  Work-Control (Work.cb_start {ph = flushing} at) h = ground arith
  Work-Control (Work.call_rcu {ph = serving} at) h = ground arith
  Work-Control (Work.call_rcu {ph = flushing} at) h = ground arith
  Work-Control (Work.lock at e) h = ground arith
  Work-Control (Work.relock at e) h = ground arith
  Work-Control w h = ground (arith, guard w)
