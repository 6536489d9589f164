-- ===== src/Main/Writer/Sample.antt =====
-- Runs of `test_threadwq2` and `test_threadwq3` of template-v1/src/main.c, for the tests: the first gets
-- no job, the second gets one.
use linux_c_template.Prelude.{
  ℕ, ◌≡◌, refl, ◌≢◌, true, false, Bool, none, some, List, [], ◌∷◌, arith,
}
use linux_c_template.Prelude.Lists.{replicate}
use linux_c_template.Prelude.Outcome.{ok}
use linux_c_template.ListHead as Links
use linux_c_template.Mempool as Pool
use linux_c_template.Mempool.{mempool_slice_magic, write}
use linux_c_template.Lfq as Lfq
use linux_c_template.Threadwq.{
  System, works, grace, init, by_adder, by_worker, unlocked, wait_cond, blocked, Work, Add,
}
use linux_c_template.Main.Client.{Shared, new_test, cb_start, cb_finish, alloc_job, first, Turn}
use linux_c_template.Main.Client.Sample.{nothing_allocated, begun, idle, others}
use linux_c_template.Main.Client.Stopping.{
  Many, no_step, one_more, ended, finished_one, ended_one, all-ended, none-ended,
}
use linux_c_template.Main.Writer as Writer
use linux_c_template.Main.Writer.Ends.{AllFrom}
use linux_c_template.Main.Writer.{
  Threadfunc, threadfunc2, threadfunc3, Point, loop_top, chosen, full, trying, got_lock, to_signal,
  to_unlock, timing, left, is_late, select_next, wrap, this, that, this_busy, Go, Goes, not_yet,
  then_goes, begin,
}

abbrev pub Bench : Type 0
Bench = Writer.Test Links.sequence Lfq.sequence

abbrev pub Run : Threadfunc → Bench → Bench → Type 0
Run f b c = Goes Links.sequence Lfq.sequence f b c

abbrev pub state : Point → ℕ → Shared (List ℕ) → Bool → List (System (List ℕ)) → Bench
state place select sh stopping twqs = record {
  client = record { shared = sh; stopping = stopping; twqs = twqs };
  place = place;
  select = select;
  ts = 100;
}

-- The other threads shut the queues down.
pub Many-Run :
    {f : Threadfunc} {b : Bench} (place : Point) (select : ℕ) (sh : Shared (List ℕ))
    {ss ts : List (System (List ℕ))}
    → Run f b (state place select sh true ss)
    → Many ss ts
    → Run f b (state place select sh true ts)
Many-Run place select sh r no_step = r
Many-Run place select sh r (one_more m o by) =
    then_goes (Many-Run place select sh r m) (Go.others (Turn.turns o) by)

-- `malloc` fails.
alloc_job-refused : alloc_job Links.sequence none begun ≡ ok begun
unfolding alloc_job Pool.alloc Pool.spin_lock Pool.spin_unlock Pool.alloc_slice Pool.malloc_slice
    Pool.take_block Pool.construct Pool.run_ctor
alloc_job-refused = refl

abbrev pub closed2 : Bench
closed2 = state left 1 begun true (ended ∷ replicate 3 ended)

begun2-Run : Run threadfunc2 (state loop_top 0 begun false (idle ∷ others)) closed2
unfolding is_late select_next
begun2-Run =
    Many-Run left 1 begun
      (then_goes
        (then_goes
          (then_goes (then_goes not_yet (Go.selects refl refl))
            (Go.gets_none none refl tt alloc_job-refused refl))
          (Go.breaks_full 111 refl refl))
        (Go.joins refl))
      none-ended

pub Run2 : Run threadfunc2 (begin Links.sequence Lfq.sequence begun.mp 100) closed2
unfolding begin new_test init
Run2 = begun2-Run

abbrev given : Shared (List ℕ)
given = record begun {
  mp = record {
    pool = record begun.mp.pool { ref = 1 };
    mem = write nothing_allocated 32 (some 9);
  };
  accl = 1;
  job = some 32;
}

alloc_job-given : alloc_job Links.sequence (some (32, 9)) begun ≡ ok given
unfolding alloc_job Pool.alloc Pool.spin_lock Pool.spin_unlock Pool.alloc_slice Pool.malloc_slice
    Pool.take_block Pool.construct Pool.run_ctor
alloc_job-given = refl

abbrev pub given_up : Shared (List ℕ)
given_up = record given { job = none }

abbrev pub freed : Shared (List ℕ)
freed = record given_up {
  mp = record {
    pool = record given.mp.pool { list_free = 32 ∷ [] };
    mem = write given.mp.mem 32 (some mempool_slice_magic);
  };
  cnt_start = 1;
  cnt_finish = 1;
}

cb_finish-freed_run : cb_finish Links.sequence 32 (cb_start given_up) ≡ ok freed
unfolding cb_finish cb_start Pool.free Pool.run_dtor Pool.set_magic Pool.spin_lock Pool.spin_unlock
    write
cb_finish-freed_run = refl

abbrev pub closed3 : Bench
closed3 = state left 1 freed true (ended_one 0 ∷ replicate 3 ended)

-- `threadfunc3` adds the job to the first queue.
abbrev pub added_one : System (List ℕ)
added_one = record idle { queue = 32 ∷ []; enqueued = 32 ∷ [] }

-- It is about to signal the worker.
abbrev pub signalling : Bench
signalling = state (to_signal 0) 1 given_up false (record added_one { mutex = by_adder } ∷ others)

signalling-Run : Run threadfunc3 (state loop_top 0 begun false (idle ∷ others)) signalling
unfolding wrap
signalling-Run =
    then_goes
      (then_goes
        (then_goes (then_goes not_yet (Go.enters refl refl))
          (Go.gets (some (32, 9)) refl ((λ e. omega arith), refl) alloc_job-given refl))
        (Go.tries refl (this (Add.trylock refl) refl)))
      (Go.adds_locked refl refl
        (this (Add.enqueue_locked 32 (λ h. absurd (omega arith)) refl) refl))

added-Run :
    Run threadfunc3
      (state loop_top 0 begun false (idle ∷ others))
      (state timing 1 given_up false (added_one ∷ others))
added-Run =
    then_goes (then_goes signalling-Run (Go.signals_worker refl (this (Add.signal refl) refl)))
      (Go.gives_lock refl (this (Add.add_unlock refl) refl))

-- The worker runs it, and RCU finishes it.
worked-Run :
    Run threadfunc3
      (state loop_top 0 begun false (idle ∷ others))
      (state timing 1 freed false (finished_one 0 ∷ others))
worked-Run =
    then_goes
      (then_goes
        (then_goes
          (then_goes
            (then_goes
              (then_goes added-Run
                (Go.others (Turn.turns (first (works (Work.init_ok refl)) refl (λ h. cc))) refl))
              (Go.others
                (Turn.turns (first (works (Work.count refl refl (omega arith))) refl (λ h. cc)))
                refl))
            (Go.others (Turn.turns (first (works (Work.take refl refl)) refl (λ h. cc))) refl))
          (Go.others (Turn.starts (first (works (Work.cb_start refl)) refl (λ h. cc))) refl))
        (Go.others (Turn.turns (first (works (Work.call_rcu refl)) refl (λ h. cc))) refl))
      (Go.others (Turn.finishes (first (grace 32 refl) refl (λ h. cc)) cb_finish-freed_run) refl)

begun3-Run : Run threadfunc3 (state loop_top 0 begun false (idle ∷ others)) closed3
unfolding is_late
begun3-Run =
    Many-Run left 1 freed
      (then_goes (then_goes worked-Run (Go.breaks 111 refl refl)) (Go.joins refl)) (all-ended 0)

pub Run3 : Run threadfunc3 (begin Links.sequence Lfq.sequence begun.mp 100) closed3
unfolding begin new_test init
Run3 = begun3-Run

pub Signalling : Run threadfunc3 (begin Links.sequence Lfq.sequence begun.mp 100) signalling
unfolding begin new_test init
Signalling = signalling-Run

-- The rest of the writer's loop, when the time is over.
abbrev pub leaving_run :
    Run threadfunc3 signalling (state left 1 given_up false (added_one ∷ others))
unfolding is_late
leaving_run =
    then_goes
      (then_goes (then_goes not_yet (Go.signals_worker refl (this (Add.signal refl) refl)))
        (Go.gives_lock refl (this (Add.add_unlock refl) refl)))
      (Go.breaks 111 refl refl)

pub leaving-from : AllFrom Links.sequence Lfq.sequence 111 leaving_run
unfolding is_late
leaving-from = (omega arith, (tt, (tt, tt)))

pub by_worker-held : by_worker ≢ unlocked
by_worker-held h = cc

abbrev pub not_true : ◌≡◌ {A = Bool} false true → ◌≡◌ {A = Bool} false true
not_true h = h

-- The first worker is about to wait, with the mutex of its queue.
abbrev worker_waits : System (List ℕ)
worker_waits = record idle { mutex = by_worker; pc = wait_cond }

abbrev pub entered : Bench
entered = state (trying 0) 0 given false (worker_waits ∷ others)

abbrev pub dealt : Bench
dealt = state (to_signal 1) 2 given_up false (
    record worker_waits { mutex = unlocked; pc = blocked }
    ∷ record added_one { mutex = by_adder }
    ∷ idle
    ∷ idle
    ∷ [])

-- The job goes to the second queue, while the first worker gives its mutex back.
unfoldable pub dealt_run : Run threadfunc3 entered dealt
unfolding wrap
dealt_run =
    then_goes
      (then_goes
        (then_goes (then_goes not_yet (Go.skips refl (this_busy by_worker-held)))
          (Go.others (Turn.turns (first (works (Work.block refl)) refl not_true)) refl))
        (Go.tries refl (that (this (Add.trylock refl) refl))))
      (Go.adds_locked refl refl
        (that (this (Add.enqueue_locked 32 (λ h. absurd (omega arith)) refl) refl)))
