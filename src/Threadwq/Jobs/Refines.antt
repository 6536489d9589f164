-- ===== src/Threadwq/Jobs/Refines.antt =====
-- The threads of template-v1/src/threadwq/threadwq.c do what `Jobs` promises.
use linux_c_template.Prelude.{
  ℕ, ◌≡◌, refl, List, [], ◌∷◌, ◌++◌, arith, inl, inr, ap, sym, subst, append_assoc, ◌∙◌,
}
use linux_c_template.Prelude.Tests.{◌==◌, Bool-cases}
use linux_c_template.Prelude.Lists.{◌∈◌, remove}
use linux_c_template.Lfq.{Lfq}
use linux_c_template.Threadwq.{
  System, init, Work, Add, Kill, Step, works, adds, kills, grace, Reach, here, later,
}
use linux_c_template.Threadwq.Facts.{in_hand, in_flight}
use linux_c_template.Threadwq.WorkerSteps.{guard}
use linux_c_template.Threadwq.OtherSteps.{in_hand-wake, in_flight-wake}
use linux_c_template.Threadwq.Jobs.{
  Jobs, Event, quiet, added, Move, stay, add, start, finish, Run, none_yet, next, nothing, jobs,
  work_event, add_event, event,
}

-- Where `remove` takes a member out.
split-remove :
    (j : ℕ) (l : List ℕ)
    → j ∈ l
    → (xs : List ℕ) × (ys : List ℕ) × (l ≡ xs ++ j ∷ ys) × (remove j l ≡ xs ++ ys)
split-remove j [] h = cc
split-remove j (x ∷ l) h = elim (Bool-cases (j == x)) [
  | inl found ↦ let e : j ≡ x = ground arith in ([], l, rw e refl, rw (found, remove) refl)
  | inr past ↦
      let (xs, ys, e, f) = split-remove j l (ground arith) in
      (x ∷ xs, ys, ap (◌∷◌ x) e, rw (past, remove) (ap (◌∷◌ x) f))
]

module _ (lfq : Lfq) where
  enqueued-Move :
      (s : System lfq.Queue) (j : ℕ)
      → Move (jobs lfq s) (added j) (record {
        waiting = in_hand s.pc ++ lfq.contents (lfq.cds_lfq_enqueue j s.queue);
        unfinished = in_flight s.pc ++ s.pending;
      })
  enqueued-Move s j =
      rw
        (
          lfq.contents-enqueue j s.queue,
          sym (append_assoc (in_hand s.pc) (lfq.contents s.queue) (j ∷ [])),
        )
        (add j)

  stays : (a b : Jobs) → a ≡ b → Move a quiet b
  stays a b e = subst (Move a quiet) e stay

  Work-Move :
      {s t : System lfq.Queue} (w : Work lfq s t)
      → Move (jobs lfq s) (work_event lfq w) (jobs lfq t)
  Work-Move {s} {t} (Work.take {j = j} {q = q} at e) =
      stays (jobs lfq s) (jobs lfq t) (rw (at, lfq.contents-dequeue s.queue j q e) refl)
  Work-Move {s} (Work.cb_start {j = j} at) = rw at (start j (lfq.contents s.queue) refl)
  Work-Move {s} {t} w = stays (jobs lfq s) (jobs lfq t) (ground (arith, guard w))

  Add-Move :
      {s t : System lfq.Queue} (a : Add lfq s t) → Move (jobs lfq s) (add_event lfq a) (jobs lfq t)
  Add-Move {s} (Add.enqueue j real) = enqueued-Move s j
  Add-Move {s} (Add.enqueue_locked j real e) = enqueued-Move s j
  Add-Move {s} {t} (Add.signal e) =
      stays (jobs lfq s) (jobs lfq t) (rw (in_hand-wake s.pc, in_flight-wake s.pc) refl)
  Add-Move (Add.add_lock a e) = stay
  Add-Move (Add.trylock e) = stay
  Add-Move (Add.add_unlock e) = stay

  Kill-Move : {s t : System lfq.Queue} → Kill lfq s t → Move (jobs lfq s) quiet (jobs lfq t)
  Kill-Move {s} {t} (Kill.broadcast e) =
      stays (jobs lfq s) (jobs lfq t) (rw (in_hand-wake s.pc, in_flight-wake s.pc) refl)
  Kill-Move (Kill.kill e) = stay
  Kill-Move (Kill.kill_lock e f) = stay
  Kill-Move (Kill.kill_exit e) = stay
  Kill-Move (Kill.kill_unlock e) = stay
  Kill-Move (Kill.again e f) = stay
  Kill-Move (Kill.join e f) = stay
  Kill-Move (Kill.join_done e f) = stay

  -- Every step of every thread is, for the jobs, the move that its event names, or nothing at all.
  pub Step-Move :
      {s t : System lfq.Queue} (st : Step lfq s t) → Move (jobs lfq s) (event lfq st) (jobs lfq t)
  Step-Move (works w) = Work-Move w
  Step-Move (adds a) = Add-Move a
  Step-Move (kills k) = Kill-Move k
  Step-Move {s} (grace j m) =
      let (xs, ys, e, f) = split-remove j s.pending m in
      rw (f, sym (append_assoc (in_flight s.pc) xs ys))
        (finish (in_flight s.pc ++ xs) j ys
          (ap (◌++◌ (in_flight s.pc)) e ∙ sym (append_assoc (in_flight s.pc) xs (j ∷ ys))))

  -- The events of a run, the last first.
  abbrev pub events : {s t : System lfq.Queue} → Reach lfq s t → List Event
  events here = []
  events (later r st) = event lfq st ∷ events r

  Reach-Run :
      {s t : System lfq.Queue} (r : Reach lfq s t) → Run (jobs lfq s) (events r) (jobs lfq t)
  Reach-Run here = none_yet
  Reach-Run (later r st) = next (Reach-Run r) (Step-Move st)

  pub init-jobs : jobs lfq (init lfq) ≡ nothing
  unfolding init
  init-jobs = rw lfq.contents-init refl

  -- Whatever the threads do from `threadwq_init` on, in any order, is a run of `Jobs` with the same
  -- events, and the jobs that it leaves are those of the reached state. So jobs start in the order in
  -- which they are added, each once, and each finishes once and after it was started.
  pub init-Run :
      {t : System lfq.Queue} (r : Reach lfq (init lfq) t) → Run nothing (events r) (jobs lfq t)
  init-Run {t} r = subst (λ a. Run a (events r) (jobs lfq t)) init-jobs (Reach-Run r)
