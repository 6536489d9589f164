-- ===== src/Threadwq.antt =====
-- template-v1/src/threadwq/threadwq.h and threadwq.c, with THREADWQ_BLOCKED_ENQUEUE: one worker
-- thread, the threads that add jobs, the thread that shuts the worker down, and the callbacks of
-- RCU, interleaved in any order. Each access to what they share is one step.
pub mod Facts
mod WorkerSteps
mod OtherSteps
pub mod Invariant
pub mod Delivery
pub mod Wakeup
pub mod Table
pub mod Jobs
pub mod Drained
pub mod Late
pub mod Ending
pub mod Rounds
pub mod Closing
mod Examples
use linux_c_template.Prelude.{
  ℕ, suc, ◌+◌, ◌/◌, ◌%◌, ◌^◌, ◌≤◌, ◌<◌, ◌≡◌, ◌≢◌, none, some, List, [], ◌∷◌, ◌++◌,
}
use linux_c_template.Prelude.Lists.{◌∈◌, remove}
use linux_c_template.Lfq.{Lfq}

-- `THREADWQ_STAT_PERIOD`
abbrev pub stat_period : ℕ
stat_period = 1000

-- The loop of `thread_func` serves; `exec_pending_jobs` flushes.
pub data Phase : Type 0 where
  serving flushing : Phase

-- Where the worker stands in `thread_func`, with the job in its hands.
pub data Pc : Type 0 where
  starting : Pc  -- before `worker_init`
  crashed : Pc  -- in `BUG()`, after `worker_init` failed
  head : Pc  -- the test of `twq->exit`
  poll : Phase → Pc  -- before `dequeue_one_job`
  got : Phase → ℕ → Pc  -- before `job->cb_start`
  ran : Phase → ℕ → Pc  -- before `call_rcu`
  wait_lock : Pc  -- before `pthread_mutex_lock` of `wait4job`
  wait_cond : Pc  -- before `pthread_cond_wait`, with the mutex
  blocked : Pc  -- in `pthread_cond_wait`, without the mutex
  woken : Pc  -- in `pthread_cond_wait`, before it takes the mutex again
  wait_unlock : Pc  -- before `pthread_mutex_unlock` of `wait4job`
  offline : Pc  -- before `worker_exit` and `exit_ack`
  done : Pc  -- after the acknowledgement

-- Who holds `twq->mutex`, and how far the holder has come.
pub data Mutex : Type 0 where
  unlocked : Mutex
  by_worker : Mutex
  by_idle_adder : Mutex  -- `rr4idle_add_job`, before the job is queued
  by_adder : Mutex  -- before `pthread_cond_signal`
  by_adder_signalled : Mutex
  by_killer : Mutex  -- `kill_online_worker`, before `exit++`
  by_killer_exit : Mutex  -- before `pthread_cond_broadcast`
  by_killer_broadcast : Mutex

-- The thread in `kill_online_worker`, outside the mutex.
pub data Killer : Type 0 where
  absent locking locked checking joining joined : Killer

-- `struct threadwq` and its threads. `enqueued`, `started` and `finished` record the jobs that were
-- queued, handed to `cb_start` and handed to `cb_finish`, in order; `pending` holds those that
-- `call_rcu` has been given; `adders` counts the threads between the enqueue and the lock of
-- `threadwq_add_job`. `cnt` and `busy` are the worker's locals.
pub record System (Queue : Type 0) : Type 0 where
  pub exit : ℕ
  pub exit_ack : ℕ
  pub running : ℕ
  pub busy_stat : ℕ
  pub queue : Queue
  pub mutex : Mutex
  pub pc : Pc
  pub cnt : ℕ
  pub busy : ℕ
  pub adders : ℕ
  pub killer : Killer
  pub enqueued : List ℕ
  pub started : List ℕ
  pub pending : List ℕ
  pub finished : List ℕ

-- A signal or broadcast on `twq->cond`: only a thread in `pthread_cond_wait` hears it.
abbrev pub wake : Pc → Pc
wake blocked = woken
wake p = p

-- Only the loop of `thread_func` counts the jobs, in an `unsigned int`.
abbrev pub count_busy : Phase → ℕ → ℕ
count_busy serving n = (n + 1) % 2 ^ 32
count_busy flushing n = n

module _ (lfq : Lfq) where
  open lfq use {Queue, cds_lfq_init, cds_lfq_enqueue, cds_lfq_dequeue}

  -- `threadwq_init` and `pthread_create`
  unfoldable pub init : System Queue
  init = record {
    exit = 0;
    exit_ack = 0;
    running = 0;
    busy_stat = 0;
    queue = cds_lfq_init;
    mutex = unlocked;
    pc = starting;
    cnt = 0;
    busy = 0;
    adders = 0;
    killer = absent;
    enqueued = [];
    started = [];
    pending = [];
    finished = [];
  }

  -- A step of the worker, in `thread_func`.
  pub data Work (s : System Queue) : System Queue → Type 0 where
    init_ok : s.pc ≡ starting → Work s (record s { running = 1; pc = head })
    init_fails : s.pc ≡ starting → Work s (record s { pc = crashed })
    leave : s.pc ≡ head → s.exit ≢ 0 → Work s (record s { pc = poll flushing })
    count :
        s.pc ≡ head
        → s.exit ≡ 0
        → s.cnt + 1 < stat_period
        → Work s (record s { cnt = s.cnt + 1; pc = poll serving })
    stat :
        s.pc ≡ head
        → s.exit ≡ 0
        → stat_period ≤ s.cnt + 1
        → Work s (record s { busy_stat = s.busy; cnt = 0; busy = s.busy / 2; pc = poll serving })
    take :
        {ph : Phase} {j : ℕ} {q : Queue}
        → s.pc ≡ poll ph
        → cds_lfq_dequeue s.queue ≡ some (j, q)
        → Work s (record s { queue = q; pc = got ph j })
    no_job :
        s.pc ≡ poll serving → cds_lfq_dequeue s.queue ≡ none → Work s (record s { pc = wait_lock })
    flushed :
        s.pc ≡ poll flushing → cds_lfq_dequeue s.queue ≡ none → Work s (record s { pc = offline })
    cb_start :
        {ph : Phase} {j : ℕ}
        → s.pc ≡ got ph j
        → Work s
            (record s { started = s.started ++ j ∷ []; busy = count_busy ph s.busy; pc = ran ph j })
    call_rcu :
        {ph : Phase} {j : ℕ}
        → s.pc ≡ ran ph j
        → Work s (record s { pending = j ∷ s.pending; pc = poll ph })
    lock :
        s.pc ≡ wait_lock
        → s.mutex ≡ unlocked
        → Work s (record s { mutex = by_worker; pc = wait_cond })
    block : s.pc ≡ wait_cond → Work s (record s { mutex = unlocked; pc = blocked })
    spurious : s.pc ≡ blocked → Work s (record s { pc = woken })
    relock :
        s.pc ≡ woken
        → s.mutex ≡ unlocked
        → Work s (record s { mutex = by_worker; pc = wait_unlock })
    unlock : s.pc ≡ wait_unlock → Work s (record s { mutex = unlocked; pc = head })
    ack : s.pc ≡ offline → Work s (record s { exit_ack = 1; pc = done })

  -- A step of a thread in `threadwq_add_job`, or in `rr4idle_add_job`, which takes the mutex first
  -- and calls `threadwq_add_job_locked`. Job 0 is `NULL`, at which `BUG_ON` ends the program before it
  -- touches the queue.
  pub data Add (s : System Queue) : System Queue → Type 0 where
    enqueue :
        (j : ℕ)
        → j ≢ 0
        → Add s (record s {
          queue = cds_lfq_enqueue j s.queue;
          enqueued = s.enqueued ++ j ∷ [];
          adders = s.adders + 1;
        })
    add_lock :
        {n : ℕ}
        → s.adders ≡ suc n
        → s.mutex ≡ unlocked
        → Add s (record s { adders = n; mutex = by_adder })
    trylock : s.mutex ≡ unlocked → Add s (record s { mutex = by_idle_adder })
    enqueue_locked :
        (j : ℕ)
        → j ≢ 0
        → s.mutex ≡ by_idle_adder
        → Add s (record s {
          queue = cds_lfq_enqueue j s.queue;
          enqueued = s.enqueued ++ j ∷ [];
          mutex = by_adder;
        })
    signal : s.mutex ≡ by_adder → Add s (record s { mutex = by_adder_signalled; pc = wake s.pc })
    add_unlock : s.mutex ≡ by_adder_signalled → Add s (record s { mutex = unlocked })

  -- A step of the thread in `threadwq_exit`.
  pub data Kill (s : System Queue) : System Queue → Type 0 where
    kill : s.killer ≡ absent → Kill s (record s { killer = locking })
    kill_lock :
        s.killer ≡ locking
        → s.mutex ≡ unlocked
        → Kill s (record s { killer = locked; mutex = by_killer })
    kill_exit :
        s.mutex ≡ by_killer
        → Kill s (record s { exit = (s.exit + 1) % 2 ^ 32; mutex = by_killer_exit })
    broadcast :
        s.mutex ≡ by_killer_exit → Kill s (record s { mutex = by_killer_broadcast; pc = wake s.pc })
    kill_unlock :
        s.mutex ≡ by_killer_broadcast → Kill s (record s { mutex = unlocked; killer = checking })
    again : s.killer ≡ checking → s.exit_ack ≡ 0 → Kill s (record s { killer = locking })
    join : s.killer ≡ checking → s.exit_ack ≢ 0 → Kill s (record s { killer = joining })
    join_done : s.killer ≡ joining → s.pc ≡ done → Kill s (record s { killer = joined })

  -- After a grace period, at any time, RCU runs `__exec_finish_rcu` on a pending job.
  pub data Step (s : System Queue) : System Queue → Type 0 where
    works : {t : System Queue} → Work s t → Step s t
    adds : {t : System Queue} → Add s t → Step s t
    kills : {t : System Queue} → Kill s t → Step s t
    grace :
        (j : ℕ)
        → j ∈ s.pending
        → Step s (record s { pending = remove j s.pending; finished = s.finished ++ j ∷ [] })

  pub data Reach (s : System Queue) : System Queue → Type 0 where
    here : Reach s s
    later : {t u : System Queue} → Reach s t → Step t u → Reach s u
