-- ===== src/Threadwq/Facts.antt =====
-- What holds between two steps of the threads of template-v1/src/threadwq/threadwq.c.
use linux_c_template.Prelude.{
  ℕ, ◌+◌, ◌<◌, ◌≡◌, ◌≢◌, refl, List, [], ◌∷◌, ◌++◌, arith, sym, Bool, true, false,
}
use linux_c_template.Prelude.Tests.{if◌then◌else◌}
use linux_c_template.Prelude.Lists.{count}
use linux_c_template.Lfq.{Lfq}
use linux_c_template.Threadwq.{
  stat_period, flushing, Pc, starting, crashed, poll, got, ran, wait_cond, wait_unlock, offline,
  done, Mutex, by_worker, by_killer, by_killer_exit, by_killer_broadcast, Killer, absent, locked,
  joining, joined, System, init,
}

-- The job that the worker has taken and not started.
abbrev pub in_hand : Pc → List ℕ
in_hand (got _ j) = j ∷ []
in_hand _ = []

-- The job that it has started and not given to `call_rcu`.
abbrev pub in_flight : Pc → List ℕ
in_flight (ran _ j) = j ∷ []
in_flight _ = []

-- The worker holds the mutex around `pthread_cond_wait` only.
abbrev pub holds : Pc → Bool
holds wait_cond = true
holds wait_unlock = true
holds _ = false

abbrev pub is_worker : Mutex → Bool
is_worker by_worker = true
is_worker _ = false

abbrev pub is_killer : Mutex → Bool
is_killer by_killer = true
is_killer by_killer_exit = true
is_killer by_killer_broadcast = true
is_killer _ = false

abbrev pub is_locked : Killer → Bool
is_locked locked = true
is_locked _ = false

abbrev pub is_done : Pc → Bool
is_done done = true
is_done _ = false

-- The worker has left the loop of `thread_func`.
abbrev pub leaving : Pc → Bool
leaving (poll flushing) = true
leaving (got flushing _) = true
leaving (ran flushing _) = true
leaving offline = true
leaving done = true
leaving _ = false

abbrev pub has_run : Pc → Bool
has_run starting = false
has_run crashed = false
has_run _ = true

abbrev pub killed : Killer → Bool
killed absent = false
killed _ = true

-- The acknowledgement has been seen.
abbrev pub seen : Killer → Bool
seen joining = true
seen joined = true
seen _ = false

module _ (lfq : Lfq) where
  -- Jobs are started in the order in which they were queued, and none is dropped or repeated.
  abbrev pub Ordered : System lfq.Queue → Type 0
  Ordered s = s.enqueued ≡ s.started ++ (in_hand s.pc ++ lfq.contents s.queue)

  -- Every job that was started is on its way to `cb_finish`, as often.
  abbrev pub Accounted : System lfq.Queue → Type 0
  Accounted s =
      (j : ℕ)
      → count j s.started ≡ count j (in_flight s.pc) + count j s.pending + count j s.finished

  pub record Control (s : System lfq.Queue) : Type 0 where
    pub mutex_worker : holds s.pc ≡ is_worker s.mutex
    pub mutex_killer : is_locked s.killer ≡ is_killer s.mutex
    pub acked : s.exit_ack ≡ (if is_done s.pc then 1 else 0)
    pub running : s.running ≡ (if has_run s.pc then 1 else 0)
    pub leaves : leaving s.pc ≡ true → killed s.killer ≡ true
    pub exits : s.exit ≢ 0 → killed s.killer ≡ true
    pub joins : seen s.killer ≡ true → s.pc ≡ done
    pub cnt : s.cnt < stat_period

  pub record Inv (s : System lfq.Queue) : Type 0 where
    pub ordered : Ordered s
    pub accounted : Accounted s
    pub control : Control s

  pub init-Inv : Inv (init lfq)
  unfolding init
  init-Inv = record {
    ordered = sym lfq.contents-init;
    accounted = λ j. refl;
    control = ground arith;
  }
