-- ===== src/Threadwq/Closing.antt =====
-- `threadwq_exit` of template-v1/src/threadwq/threadwq.c can always return: from every state that the
-- threads reach there is a way to go on that ends its call.
use linux_c_template.Prelude.{◌≡◌, ◌≢◌, inl, inr, refl, false, arith, ap, ◌∙◌}
use linux_c_template.Lfq.{Lfq}
use linux_c_template.Threadwq.{
  crashed, done, unlocked, joined, System, init, Work, Add, Kill, Step, works, adds, kills, grace,
  Reach,
}
use linux_c_template.Threadwq.Facts.{holds, is_worker, has_run}
use linux_c_template.Threadwq.Invariant.{Reach-Inv}
use linux_c_template.Threadwq.Delivery.{exit-joined}
use linux_c_template.Threadwq.Rounds.{Joins, frees, joins, asks, rouse, done-cases, zero-cases}
use linux_c_template.Threadwq.Ending.{Calm, still, next, Calm-append, Reach-Calm, ends}

module _ (lfq : Lfq) where
  Work-running : {s t : System lfq.Queue} → Work lfq s t → s.running ≡ 1 → t.running ≡ 1
  Work-running (Work.init_ok at) h = refl
  Work-running w h = h

  Step-running : {s t : System lfq.Queue} → Step lfq s t → s.running ≡ 1 → t.running ≡ 1
  Step-running (works w) h = Work-running w h
  Step-running (adds (Add.trylock e)) h = h
  Step-running (adds a) h = h
  Step-running (kills (Kill.kill e)) h = h
  Step-running (kills k) h = h
  Step-running (grace j i) h = h

  Calm-running : {s t : System lfq.Queue} → Calm lfq s t → s.running ≡ 1 → t.running ≡ 1
  Calm-running still h = h
  Calm-running (next r st c) h = Step-running st (Calm-running r h)

  closes_done :
      (s : System lfq.Queue)
      → Reach lfq (init lfq) s
      → (t : System lfq.Queue) → Calm lfq s t
      → t.mutex ≡ unlocked
      → t.pc ≡ done
      → Joins lfq s
  closes_done s r t onward free at =
      let c = (Reach-Inv lfq (Reach-Calm lfq r onward)).control in
      let acked : t.exit_ack ≡ 1 = c.acked ∙ rw at refl in
      let (u, q, j) = joins lfq t t.killer c free at (λ z. omega (arith, acked)) refl in
      (u, Calm-append lfq onward q, j)

  -- From a state in which `exit` is set and the mutex is free.
  closes_asked :
      (s : System lfq.Queue)
      → Reach lfq (init lfq) s
      → s.running ≡ 1
      → s.mutex ≡ unlocked
      → s.exit ≢ 0
      → Joins lfq s
  closes_asked s r run free asked =
      let c = (Reach-Inv lfq r).control in
      let alive : s.pc ≢ crashed = λ e. cc (c.running, run, ap has_run e) in
      let away : holds s.pc ≡ false = c.mutex_worker ∙ ap is_worker free in
      let d = ends lfq s free asked s.pc refl alive away in
      elim d.at [
        | inl e ↦ closes_done s r d.t d.reached d.free e
        | inr asleep ↦
            let far = rouse lfq d.t (Reach-Calm lfq r d.reached) d.free asleep in
            let onward = Calm-append lfq d.reached far.reached in
            elim far.at [
              | inl e ↦ closes_done s r far.t onward far.free e
              | inr e ↦ closes_done s r far.t onward far.free e
            ]
      ]

  closes_free :
      (s : System lfq.Queue)
      → Reach lfq (init lfq) s
      → s.running ≡ 1
      → s.mutex ≡ unlocked
      → Joins lfq s
  closes_free s r run free =
      let c = (Reach-Inv lfq r).control in
      elim (done-cases s.pc) [
        | inl e ↦
            let acked : s.exit_ack ≡ 1 = c.acked ∙ rw e refl in
            joins lfq s s.killer c free e (λ z. omega (arith, acked)) refl
        | inr working ↦ elim (zero-cases s.exit) [
          | inr asked ↦ closes_asked s r run free asked
          | inl unasked ↦
              let (t, q, m, _, x) = asks lfq s s.killer c free working refl in
              let set : t.exit ≢ 0 = λ z. omega (arith, x, unasked, z) in
              let (u, q', j) = closes_asked t (Reach-Calm lfq r q) (Calm-running q run) m set in
              (u, Calm-append lfq q q', j)
        ]
      ]

  -- From every state that the threads reach once `worker_init` has succeeded, for which `threadwq_exec`
  -- waits, there is a way to go on in which `threadwq_exit` returns, with the worker acknowledged and
  -- ended, and in which no wake-up is spurious and no other thread begins to add a job: whoever holds the
  -- mutex, wherever the worker stands, also when it blocks after a lost signal, and whether the call has
  -- begun or not. A blocked worker is woken by `pthread_cond_broadcast`.
  pub exit-closes :
      {s : System lfq.Queue}
      → Reach lfq (init lfq) s
      → s.running ≡ 1
      → (t : System lfq.Queue) × Calm lfq s t
        × (t.killer ≡ joined)
        × (t.pc ≡ done)
        × (t.exit_ack ≡ 1)
  exit-closes {s} r run =
      let (f, q, free) = frees lfq s s.mutex (Reach-Inv lfq r).control refl in
      let (t, q', j) = closes_free f (Reach-Calm lfq r q) (Calm-running q run) free in
      let onward = Calm-append lfq q q' in
      let (ended, ack, _, _) = exit-joined lfq (Reach-Calm lfq r onward) j in
      (t, onward, j, ended, ack)
