-- ===== src/Main/Writer.antt =====
-- template-v1/src/main.c: `threadfunc2` and `threadfunc3`, the threads that allocate jobs and add them
-- to the queues until the time is over, and `test_threadwq2` and `test_threadwq3`, which join them and
-- shut the queues down. Each access to what the threads share is one step.
pub mod Steady
pub mod Sane
pub mod Roles
pub mod Others
pub mod Held
pub mod Table
pub mod Moves
pub mod Ends
pub mod Enqueued
pub mod Along
pub mod Deals
mod Sample
mod Examples
pub mod Whole
use linux_c_template.Prelude.{
  Bool, true, false, ℕ, suc, zero, ◌+◌, ◌<◌, ◌≤◌, ◌≡◌, ◌≢◌, Option, none, some, List, [], ◌∷◌,
}
use linux_c_template.Prelude.Tests.{leb, if◌then◌else◌}
use linux_c_template.Prelude.Outcome.{ok}
use linux_c_template.ListHead.{ListHead}
use linux_c_template.Mempool as Pool
use linux_c_template.Mempool.Invariant.{IsFresh}
use linux_c_template.Lfq.{Lfq}
use linux_c_template.Threadwq.Jobs.{Event}
use linux_c_template.Threadwq.{System, Add, works, adds, kills, grace, unlocked}
use linux_c_template.Main.Client.{
  twqnum, Shared, new_test, count_wait, alloc_job, One, first, beyond, Client, Turn, allocates,
  waits, turns, starts, finishes, stops, writes, init_multi,
}

-- `TEST_TIME`
abbrev pub test_time : ℕ
test_time = 10

-- `(ts_now.tv_sec - ts.tv_sec) > TEST_TIME`; the difference is signed, so a clock that is set back is not
-- late
unfoldable pub is_late : ℕ → ℕ → Bool
is_late ts now = leb (ts + test_time + 1) now

-- `threadfunc2` deals the jobs out by itself, `threadfunc3` by `threadwq_man_ops_rr4idle`.
pub data Threadfunc : Type 0 where
  threadfunc2 threadfunc3 : Threadfunc

-- Where the writer stands. The index is that of the queue that its call is for.
pub data Point : Type 0 where
  loop_top : Point
  chosen : Point  -- before `mempool_alloc`
  full : Point  -- before `clock_gettime`, without a job
  adding : ℕ → Point  -- before `cds_lfq_enqueue_rcu` of `threadwq_add_job`
  queued : ℕ → Point  -- before `pthread_mutex_lock` of `threadwq_add_job`
  trying : ℕ → Point  -- in the loop of `rr4idle_add_job`, before the test of `idx`
  got_lock : ℕ → Point  -- before `cds_lfq_enqueue_rcu` of `threadwq_add_job_locked`
  to_signal : ℕ → Point  -- before `pthread_cond_signal`
  to_unlock : ℕ → Point  -- before `pthread_mutex_unlock`
  timing : Point  -- before `clock_gettime`, behind the call
  left : Point  -- behind the loop

-- `select_twq++; if (select_twq >= TWQNUM) select_twq = 0;`
unfoldable pub select_next : ℕ → ℕ
select_next i = if leb twqnum (i + 1) then 0 else i + 1

-- `if (idx >= man->twq_pool_nr) idx = 0;` of `rr4idle_add_job`, with the table of the test
unfoldable pub wrap : ℕ → ℕ
wrap idx = if leb twqnum idx then 0 else idx

-- What a thread that adds a job does to a queue.
pub data AddCall : Type 0 where
  puts puts_locked : ℕ → AddCall
  locks trylocks signals unlocks : AddCall

module _ (lfq : Lfq) where
  abbrev pub call : {s t : System lfq.Queue} → Add lfq s t → AddCall
  call (Add.enqueue j real) = puts j
  call (Add.add_lock e f) = locks
  call (Add.trylock e) = trylocks
  call (Add.enqueue_locked j real e) = puts_locked j
  call (Add.signal e) = signals
  call (Add.add_unlock e) = unlocks

  -- `&twq[i]`, and what the writer does to it
  pub data On : ℕ → AddCall → List (System lfq.Queue) → List (System lfq.Queue) → Type 0 where
    this :
        {s t : System lfq.Queue} {rest : List (System lfq.Queue)} {what : AddCall} (a : Add lfq s t)
        → call a ≡ what
        → On zero what (s ∷ rest) (t ∷ rest)
    that :
        {i : ℕ} {what : AddCall} {s : System lfq.Queue} {rest rest' : List (System lfq.Queue)}
        → On i what rest rest'
        → On (suc i) what (s ∷ rest) (s ∷ rest')

  -- `pthread_mutex_trylock(&twq[i].mutex)` fails.
  pub data IsBusy : ℕ → List (System lfq.Queue) → Type 0 where
    this_busy :
        {s : System lfq.Queue} {rest : List (System lfq.Queue)}
        → s.mutex ≢ unlocked
        → IsBusy zero (s ∷ rest)
    that_busy :
        {i : ℕ} {s : System lfq.Queue} {rest : List (System lfq.Queue)}
        → IsBusy i rest
        → IsBusy (suc i) (s ∷ rest)

  -- A step of a thread that adds jobs.
  abbrev pub is_add :
      {stopping : Bool} {ss ts : List (System lfq.Queue)} {e : Event}
      → One lfq stopping ss e ts
      → Bool
  is_add (first (adds a) _ _) = true
  is_add (first (works w) _ _) = false
  is_add (first (kills k) _ _) = false
  is_add (first (grace j i) _ _) = false
  is_add (beyond o) = is_add o

module _ (lh : ListHead) (lfq : Lfq) where
  -- A step of the writer, also of its calls.
  abbrev pub by_writer : {c d : Client lh lfq} → Turn lh lfq c d → Bool
  by_writer (allocates answer e free fresh f) = true
  by_writer (waits e free) = true
  by_writer (Turn.adds e f step) = true
  by_writer (turns step) = is_add lfq step
  by_writer (starts step) = false
  by_writer (finishes step e) = false
  by_writer (stops e) = true
  by_writer (writes p mem h own) = false

  -- The threads of a test. `select` is `select_twq` of `threadfunc2`, and `man->rr.twq_idx` for
  -- `threadfunc3`; `ts` is the second in which the loop began.
  pub record Test : Type 0 where
    pub client : Client lh lfq
    pub place : Point
    pub select : ℕ
    pub ts : ℕ

  -- A step of the writer `f`, of the thread that has created it, or of the others.
  pub data Go (f : Threadfunc) (b : Test) : Test → Type 0 where
    selects :
        f ≡ threadfunc2
        → b.place ≡ loop_top
        → Go f b (record b { select = select_next b.select; place = chosen })
    enters : f ≡ threadfunc3 → b.place ≡ loop_top → Go f b (record b { place = chosen })
    gets_none :
        (answer : Option (ℕ × ℕ)) {sh : Shared lh.Links}
        → b.place ≡ chosen
        → IsFresh answer b.client.shared.mp.mem
        → alloc_job lh answer b.client.shared ≡ ok sh
        → sh.job ≡ none
        → Go f b (record b { client = record b.client { shared = sh }; place = full })
    gets :
        (answer : Option (ℕ × ℕ)) {sh : Shared lh.Links} {j : ℕ}
        → b.place ≡ chosen
        → IsFresh answer b.client.shared.mp.mem
        → alloc_job lh answer b.client.shared ≡ ok sh
        → sh.job ≡ some j
        → Go f b (record b {
          client = record b.client { shared = sh };
          place = elim f [ threadfunc2 ↦ adding b.select | threadfunc3 ↦ trying b.select ];
        })
    relaxes :
        (now : ℕ)
        → b.place ≡ full
        → is_late b.ts now ≡ false
        → Go f b (record b {
          client = record b.client { shared = count_wait b.client.shared };
          place = loop_top;
        })
    adds_job :
        {i j : ℕ} {twqs' : List (System lfq.Queue)}
        → b.place ≡ adding i
        → b.client.shared.job ≡ some j
        → On lfq i (puts j) b.client.twqs twqs'
        → Go f b (record b {
          client = record b.client { shared = record b.client.shared { job = none }; twqs = twqs' };
          place = queued i;
        })
    takes_lock :
        {i : ℕ} {twqs' : List (System lfq.Queue)}
        → b.place ≡ queued i
        → On lfq i locks b.client.twqs twqs'
        → Go f b (record b { client = record b.client { twqs = twqs' }; place = to_signal i })
    skips :
        {idx : ℕ}
        → b.place ≡ trying idx
        → IsBusy lfq (wrap idx) b.client.twqs
        → Go f b (record b { place = trying (wrap idx + 1) })
    tries :
        {idx : ℕ} {twqs' : List (System lfq.Queue)}
        → b.place ≡ trying idx
        → On lfq (wrap idx) trylocks b.client.twqs twqs'
        → Go f b (record b {
          client = record b.client { twqs = twqs' };
          place = got_lock (wrap idx);
          select = wrap idx + 1;
        })
    adds_locked :
        {i j : ℕ} {twqs' : List (System lfq.Queue)}
        → b.place ≡ got_lock i
        → b.client.shared.job ≡ some j
        → On lfq i (puts_locked j) b.client.twqs twqs'
        → Go f b (record b {
          client = record b.client { shared = record b.client.shared { job = none }; twqs = twqs' };
          place = to_signal i;
        })
    signals_worker :
        {i : ℕ} {twqs' : List (System lfq.Queue)}
        → b.place ≡ to_signal i
        → On lfq i signals b.client.twqs twqs'
        → Go f b (record b { client = record b.client { twqs = twqs' }; place = to_unlock i })
    gives_lock :
        {i : ℕ} {twqs' : List (System lfq.Queue)}
        → b.place ≡ to_unlock i
        → On lfq i unlocks b.client.twqs twqs'
        → Go f b (record b { client = record b.client { twqs = twqs' }; place = timing })
    goes_on :
        (now : ℕ)
        → b.place ≡ timing
        → is_late b.ts now ≡ false
        → Go f b (record b { place = loop_top })
    breaks_full :
        (now : ℕ) → b.place ≡ full → is_late b.ts now ≡ true → Go f b (record b { place = left })
    breaks :
        (now : ℕ) → b.place ≡ timing → is_late b.ts now ≡ true → Go f b (record b { place = left })
    joins : b.place ≡ left → Go f b (record b { client = record b.client { stopping = true } })
    others :
        {d : Client lh lfq} (t : Turn lh lfq b.client d)
        → by_writer t ≡ false
        → Go f b (record b { client = d })

  pub data Goes (f : Threadfunc) (b : Test) : Test → Type 0 where
    not_yet : Goes f b b
    then_goes : {c d : Test} → Goes f b c → Go f c d → Goes f b d

  -- The counters are set to 0, and `threadwq_init_multi`, `threadwq_exec_multi` and
  -- `threadwq_man_init` have returned; `mp` is the pool as the tests before have left it.
  unfoldable pub begin : Pool.State lh.Links → ℕ → Test
  unfolding new_test
  begin mp ts = record {
    client = record { shared = new_test mp; stopping = false; twqs = init_multi lfq };
    place = loop_top;
    select = 0;
    ts = ts;
  }
