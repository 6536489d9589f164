-- ===== src/Threadwq/Invariant.antt =====
-- The invariant holds in every state that the threads of template-v1/src/threadwq/threadwq.c reach.
use linux_c_template.Prelude.{ℕ, [], ◌∷◌, ◌++◌, arith}
use linux_c_template.Prelude.Lists.{◌∈◌, remove, count-append, count-remove}
use linux_c_template.Lfq.{Lfq}
use linux_c_template.Threadwq.{System, init, Step, works, adds, kills, grace, Reach, here, later}
use linux_c_template.Threadwq.Facts.{Accounted, Inv, init-Inv}
use linux_c_template.Threadwq.WorkerSteps.{Work-Ordered, Work-Accounted, Work-Control}
use linux_c_template.Threadwq.OtherSteps.{
  Add-Ordered, Add-Accounted, Add-Control, Kill-Ordered, Kill-Accounted, Kill-Control,
}

module _ (lfq : Lfq) where
  grace-Accounted :
      (s : System lfq.Queue) (i : ℕ)
      → i ∈ s.pending
      → Accounted lfq s
      → Accounted lfq (record s { pending = remove i s.pending; finished = s.finished ++ i ∷ [] })
  grace-Accounted s i m h j =
      ground (arith, h j, count-remove i j s.pending m, count-append j s.finished (i ∷ []))

  -- Every step of every thread keeps the invariant: jobs in order, every started job on its way to
  -- `cb_finish`, and the locks and flags as the positions of the threads say.
  pub Step-Inv : {s t : System lfq.Queue} → Step lfq s t → Inv lfq s → Inv lfq t
  Step-Inv (works w) inv = record {
    ordered = Work-Ordered lfq w inv.ordered;
    accounted = Work-Accounted lfq w inv.accounted;
    control = Work-Control lfq w inv.control;
  }
  Step-Inv (adds a) inv = record {
    ordered = Add-Ordered lfq a inv.ordered;
    accounted = Add-Accounted lfq a inv.accounted;
    control = Add-Control lfq a inv.control;
  }
  Step-Inv (kills k) inv = record {
    ordered = Kill-Ordered lfq k inv.ordered;
    accounted = Kill-Accounted lfq k inv.accounted;
    control = Kill-Control lfq k inv.control;
  }
  Step-Inv {s} (grace j m) inv = record {
    ordered = inv.ordered;
    accounted = grace-Accounted s j m inv.accounted;
    control = ground arith;
  }

  pub Reach-Inv : {s : System lfq.Queue} → Reach lfq (init lfq) s → Inv lfq s
  Reach-Inv here = init-Inv lfq
  Reach-Inv (later r st) = Step-Inv st (Reach-Inv r)
