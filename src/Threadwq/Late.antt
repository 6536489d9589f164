-- ===== src/Threadwq/Late.antt =====
-- The jobs that come too late for the worker of template-v1/src/threadwq/threadwq.c.
use linux_c_template.Prelude.{
  ℕ, ◌≡◌, ◌≢◌, refl, true, false, List, [], ◌∷◌, ◌++◌, arith, append-nil, append_assoc, ap, sym,
  ◌∙◌, ◌⊎◌, inl, inr,
}
use linux_c_template.Prelude.Tests.{if◌then◌else◌, Bool-cases}
use linux_c_template.Lfq.{Lfq}
use linux_c_template.Threadwq.{
  done, by_worker, joined, System, init, Work, Add, Kill, Step, works, adds, kills, grace, Reach,
  here, later,
}
use linux_c_template.Threadwq.Delivery.{is_over, flushed-all, over-Step, exit-joined}
use linux_c_template.Threadwq.Drained.{is_over-wake, is_over-before}
use linux_c_template.Threadwq.Jobs.{Event, added, event}

-- The job that a step adds.
abbrev pub new_jobs : Event → List ℕ
new_jobs (added j) = j ∷ []
new_jobs _ = []

module _ (lfq : Lfq) where
  -- The jobs that were added in a run after the worker had found its queue empty for the last time.
  unfoldable pub late_jobs : {s t : System lfq.Queue} → Reach lfq s t → List ℕ
  late_jobs here = []
  late_jobs (later {t} r st) = late_jobs r ++ (if is_over t.pc then new_jobs (event lfq st) else [])

  Step-enqueued :
      {s t : System lfq.Queue} (st : Step lfq s t)
      → t.enqueued ≡ s.enqueued ++ new_jobs (event lfq st)
  Step-enqueued {s} (works (Work.cb_start at)) = sym (append-nil s.enqueued)
  Step-enqueued {s} (works w) = sym (append-nil s.enqueued)
  Step-enqueued (adds (Add.enqueue j real)) = refl
  Step-enqueued (adds (Add.enqueue_locked j real e)) = refl
  Step-enqueued {s} (adds (Add.trylock e)) = sym (append-nil s.enqueued)
  Step-enqueued {s} (adds a) = sym (append-nil s.enqueued)
  Step-enqueued {s} (kills (Kill.kill e)) = sym (append-nil s.enqueued)
  Step-enqueued {s} (kills k) = sym (append-nil s.enqueued)
  Step-enqueued {s} (grace j i) = sym (append-nil s.enqueued)

  -- The worker goes offline only when it has started all jobs.
  enters_over :
      {s t : System lfq.Queue}
      → Reach lfq (init lfq) s
      → Step lfq s t
      → is_over s.pc ≡ false
      → is_over t.pc ≡ true
      → t.started ≡ t.enqueued
  enters_over r (works (Work.flushed at e)) n o = flushed-all lfq r (Work.flushed at e) refl
  enters_over r (works (Work.ack at)) n o = ground arith
  enters_over r (works w) n o = cc
  enters_over r (adds a) n o = cc (n, is_over-before lfq a o)
  enters_over {s} r (kills (Kill.broadcast e)) n o = cc (n, is_over-wake s.pc o)
  enters_over r (kills k) n o = cc
  enters_over r (grace j i) n o = cc

  late_jobs-cases :
      {s : System lfq.Queue} (r : Reach lfq (init lfq) s)
      → ((is_over s.pc ≡ false) × (late_jobs r ≡ []))
        ⊎ ((is_over s.pc ≡ true) × (s.enqueued ≡ s.started ++ late_jobs r))
  unfolding late_jobs init
  late_jobs-cases here = inl (refl, refl)
  late_jobs-cases (later {t} {u} r st) = elim (late_jobs-cases r) [
    | inr (o, e) ↦
        let (o', same) = over-Step lfq st o in
        let new = new_jobs (event lfq st) in
        inr (
          o',
          rw (o, same)
              (Step-enqueued st ∙ ap (λ l. l ++ new) e ∙ append_assoc t.started (late_jobs r) new),
        )
    | inl (n, e) ↦ elim (Bool-cases (is_over u.pc)) [
      | inr still_on ↦ inl (still_on, rw (n, e) refl)
      | inl o ↦ inr (o, rw (n, e) (sym (enters_over r st n o) ∙ sym (append-nil u.started)))
    ]
  ]

  append_cancel : (xs ys zs : List ℕ) → xs ++ ys ≡ xs ++ zs → ys ≡ zs
  append_cancel [] ys zs e = e
  append_cancel (x ∷ xs) ys zs e = append_cancel xs ys zs (ground (arith, e))

  -- When `threadwq_exit` has returned from `pthread_join`, the worker has acknowledged and ended and does
  -- not hold the mutex, and every job was started that was added before the worker found its queue empty
  -- for the last time: the jobs that were not started are those added after that, and the queue holds
  -- them, in order.
  pub exit-flushed :
      {s : System lfq.Queue} (r : Reach lfq (init lfq) s)
      → s.killer ≡ joined
      → (s.pc ≡ done)
        × (s.exit_ack ≡ 1)
        × (s.mutex ≢ by_worker)
        × (s.enqueued ≡ s.started ++ late_jobs r)
        × (lfq.contents s.queue ≡ late_jobs r)
  exit-flushed {s} r k =
      let (ended, acked, away, left) = exit-joined lfq r k in
      elim (late_jobs-cases r) [
        | inl (n, _) ↦ cc (n, ap is_over ended)
        | inr (_, e) ↦ (ended, acked, away, e, append_cancel s.started _ _ (sym left ∙ e))
      ]
