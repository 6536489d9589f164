-- ===== src/Threadwq/Ending.antt =====
-- How the worker of template-v1/src/threadwq/threadwq.c gets to its end when `exit` is set.
use linux_c_template.Prelude.{
  ℕ, zero, suc, ◌≤◌, ◌≡◌, ◌≢◌, ◌⊎◌, inl, inr, refl, none, [], ◌∷◌, ◌++◌, Bool, true, false, arith,
  ap,
}
use linux_c_template.Prelude.Tests.{Option-cases}
use linux_c_template.Prelude.Lists.{length}
use linux_c_template.Lfq.{Lfq}
use linux_c_template.Threadwq.{
  Phase, serving, flushing, Pc, starting, crashed, head, poll, got, ran, wait_lock, wait_cond,
  blocked, woken, wait_unlock, offline, done, unlocked, System, count_busy, Work, Add, Step, works,
  adds, Reach, later,
}
use linux_c_template.Threadwq.Facts.{holds}

-- What happens without the help of chance: no spurious wake-up, and nobody begins to add a job. A
-- thread in `rr4idle_add_job` that holds the mutex goes on.
module _ (lfq : Lfq) where
  abbrev pub is_calm : {s t : System lfq.Queue} → Step lfq s t → Bool
  is_calm (works (Work.spurious at)) = false
  is_calm (adds (Add.enqueue j real)) = false
  is_calm (adds (Add.trylock free)) = false
  is_calm _ = true

  -- A run of such steps.
  pub data Calm (s : System lfq.Queue) : System lfq.Queue → Type 0 where
    still : Calm s s
    next : {t u : System lfq.Queue} → Calm s t → (st : Step lfq t u) → is_calm st ≡ true → Calm s u

  pub Calm-append : {s t u : System lfq.Queue} → Calm s t → Calm t u → Calm s u
  Calm-append r still = r
  Calm-append r (next q st c) = next (Calm-append r q) st c

  -- A run and a calm one behind it.
  pub Reach-Calm : {s t u : System lfq.Queue} → Reach lfq s t → Calm t u → Reach lfq s u
  Reach-Calm r still = r
  Reach-Calm r (next q st c) = later (Reach-Calm r q) st

  -- The worker can get to its end or to `p`, with the mutex free and `exit` set.
  pub record To (s : System lfq.Queue) (p : Pc) : Type 0 where
    pub t : System lfq.Queue
    pub reached : Calm s t
    pub free : t.mutex ≡ unlocked
    pub asked : t.exit ≢ 0
    pub at : (t.pc ≡ done) ⊎ (t.pc ≡ p)

  now :
      (s : System lfq.Queue) (p : Pc)
      → s.mutex ≡ unlocked
      → s.exit ≢ 0
      → (s.pc ≡ done) ⊎ (s.pc ≡ p)
      → To s p
  now s p free asked at = record { t = s; reached = still; free = free; asked = asked; at = at }

  then_to :
      {s t : System lfq.Queue} {p : Pc} (st : Step lfq s t) → is_calm st ≡ true → To t p → To s p
  then_to st c d = record {
    t = d.t;
    reached = Calm-append (next still st c) d.reached;
    free = d.free;
    asked = d.asked;
    at = d.at;
  }

  -- The worker empties the queue.
  drains :
      (n : ℕ) (ph : Phase) (s : System lfq.Queue) (p : Pc)
      → length (lfq.contents s.queue) ≤ n
      → s.mutex ≡ unlocked
      → s.exit ≢ 0
      → s.pc ≡ poll ph
      → ((t : System lfq.Queue)
          → t.mutex ≡ unlocked
          → t.exit ≢ 0
          → t.pc ≡ poll ph
          → lfq.cds_lfq_dequeue t.queue ≡ none
          → To t p)
      → To s p
  drains zero ph s p le free asked at rest = elim (Option-cases (lfq.cds_lfq_dequeue s.queue)) [
    | inl e ↦ rest s free asked at e
    | inr ((j, q), e) ↦ absurd (omega (arith, ap length (lfq.contents-dequeue s.queue j q e)))
  ]
  drains (suc n) ph s p le free asked at rest = elim (Option-cases (lfq.cds_lfq_dequeue s.queue)) [
    | inl e ↦ rest s free asked at e
    | inr ((j, q), e) ↦
        let fewer : length (lfq.contents q) ≤ n =
          omega (arith, ap length (lfq.contents-dequeue s.queue j q e)) in
        then_to (works (Work.take at e)) refl (
          then_to (works (Work.cb_start refl)) refl (
            then_to (works (Work.call_rcu refl)) refl (
              drains n ph
                (record s {
                  queue = q;
                  started = s.started ++ j ∷ [];
                  busy = count_busy ph s.busy;
                  pending = j ∷ s.pending;
                  pc = poll ph;
                })
                p fewer free asked refl rest)))
  ]

  module _ (s : System lfq.Queue) (free : s.mutex ≡ unlocked) (asked : s.exit ≢ 0) where
    acks : (p : Pc) → s.pc ≡ offline → To s p
    acks p at = then_to (works (Work.ack at)) refl (now _ p free asked (inl refl))

  module _ (s : System lfq.Queue) (free : s.mutex ≡ unlocked) (asked : s.exit ≢ 0) where
    flushes : (p : Pc) → s.pc ≡ poll flushing → To s p
    flushes p at =
        drains (length (lfq.contents s.queue)) flushing s p (omega arith) free asked at
          λ t f a at' e. then_to (works (Work.flushed at' e)) refl (acks _ f a p refl)

  module _ (s : System lfq.Queue) (free : s.mutex ≡ unlocked) (asked : s.exit ≢ 0) where
    leaves : (p : Pc) → s.pc ≡ head → To s p
    leaves p at = then_to (works (Work.leave at asked)) refl (flushes _ free asked p refl)

  module _ (s : System lfq.Queue) (free : s.mutex ≡ unlocked) (asked : s.exit ≢ 0) where
    pub wakes : s.pc ≡ woken → To s done
    wakes at =
        then_to (works (Work.relock at free)) refl
          (then_to (works (Work.unlock refl)) refl (leaves _ refl asked done refl))

  module _ (s : System lfq.Queue) (free : s.mutex ≡ unlocked) (asked : s.exit ≢ 0) where
    sleeps : s.pc ≡ wait_lock → To s blocked
    sleeps at =
        then_to (works (Work.lock at free)) refl
          (then_to (works (Work.block refl)) refl (now _ blocked refl asked (inr refl)))

  module _ (s : System lfq.Queue) (free : s.mutex ≡ unlocked) (asked : s.exit ≢ 0) where
    polls : (ph : Phase) → s.pc ≡ poll ph → To s blocked
    polls flushing at = flushes s free asked blocked at
    polls serving at =
        drains (length (lfq.contents s.queue)) serving s blocked (omega arith) free asked at
          λ t f a at' e. then_to (works (Work.no_job at' e)) refl (sleeps _ f a refl)

  module _ (s : System lfq.Queue) (free : s.mutex ≡ unlocked) (asked : s.exit ≢ 0) where
    pub ends : (p : Pc) → s.pc ≡ p → p ≢ crashed → holds p ≡ false → To s blocked
    ends starting at ne h =
        then_to (works (Work.init_ok at)) refl (leaves _ free asked blocked refl)
    ends crashed at ne h = absurd (ne refl)
    ends head at ne h = leaves s free asked blocked at
    ends (poll ph) at ne h = polls s free asked ph at
    ends (got ph j) at ne h =
        then_to (works (Work.cb_start at)) refl
          (then_to (works (Work.call_rcu refl)) refl (polls _ free asked ph refl))
    ends (ran ph j) at ne h = then_to (works (Work.call_rcu at)) refl (polls _ free asked ph refl)
    ends wait_lock at ne h = sleeps s free asked at
    ends wait_cond at ne h = cc
    ends blocked at ne h = now s blocked free asked (inr at)
    ends woken at ne h =
        let d = wakes s free asked at in
        record {
          t = d.t;
          reached = d.reached;
          free = d.free;
          asked = d.asked;
          at = elim d.at [ inl e ↦ inl e | inr e ↦ inl e ];
        }
    ends wait_unlock at ne h = cc
    ends offline at ne h = acks s free asked blocked at
    ends done at ne h = now s blocked free asked (inl at)
