-- ===== src/Main/Client/Sample.antt =====
-- A run of the writer and the queues of template-v1/src/main.c with one job, for the tests.
use linux_c_template.Prelude.{ℕ, ◌≡◌, refl, false, none, some, List, [], ◌∷◌, arith}
use linux_c_template.Prelude.Lists.{replicate}
use linux_c_template.Prelude.Outcome.{ok}
use linux_c_template.ListHead as Links
use linux_c_template.Mempool as Pool
use linux_c_template.Mempool.{Memory, write, exit}
use linux_c_template.Lfq as Lfq
use linux_c_template.Threadwq.{
  System, works, adds, init, Work, Add, starting, head, poll, serving, got, ran, absent, unlocked,
}
use linux_c_template.Main.Client as Client
use linux_c_template.Main.Client.{
  max_jobs, Shared, cb_start, cb_finish, alloc_job, start, One, first, beyond, writer_jobs, IsHeld,
  Turn, Turns, at_start, further,
}
use linux_c_template.Main.Client.Safe.{begins}

abbrev pub nothing_allocated : Memory
nothing_allocated p = none

abbrev pub begun : Shared (List ℕ)
begun = record {
  mp = record {
    pool = record {
      magic = 1409831944;
      sz = 64;
      name = 110 ∷ [];
      ref = 0;
      max = max_jobs;
      fail = 0;
      ctor = none;
      dtor = none;
      locked = false;
      list_free = [];
    };
    mem = nothing_allocated;
  };
  wait = 0;
  cnt_start = 0;
  cnt_finish = 0;
  accl = 0;
  job = none;
}

pub start-begun : start Links.sequence 64 (110 ∷ []) nothing_allocated ≡ ok begun
unfolding start Pool.init Pool.SliceSize.calc_slice_size
start-begun = refl

-- The writer has the block at 32.
abbrev pub allocated : Shared (List ℕ)
allocated = record begun {
  mp = record {
    pool = record begun.mp.pool { ref = 1 };
    mem = write nothing_allocated 32 (some 9);
  };
  accl = 1;
  job = some 32;
}

alloc_job-allocated : alloc_job Links.sequence (some (32, 9)) begun ≡ ok allocated
unfolding alloc_job Pool.alloc Pool.spin_lock Pool.spin_unlock Pool.alloc_slice Pool.malloc_slice
    Pool.take_block Pool.construct Pool.run_ctor
alloc_job-allocated = refl

abbrev pub idle : System (List ℕ)
idle = record {
  exit = 0;
  exit_ack = 0;
  running = 0;
  busy_stat = 0;
  queue = [];
  mutex = unlocked;
  pc = starting;
  cnt = 0;
  busy = 0;
  adders = 0;
  killer = absent;
  enqueued = [];
  started = [];
  pending = [];
  finished = [];
}

-- The first queue has the job.
abbrev pub queued : System (List ℕ)
queued = record idle { queue = 32 ∷ []; enqueued = 32 ∷ []; adders = 1 }

abbrev pub serves : System (List ℕ)
serves = record queued { running = 1; pc = head }

abbrev pub counted : System (List ℕ)
counted = record serves { cnt = 1; pc = poll serving }

abbrev pub taken : System (List ℕ)
taken = record counted { queue = []; pc = got serving 32 }

abbrev pub run : System (List ℕ)
run = record taken { started = 32 ∷ []; busy = 1; pc = ran serving 32 }

abbrev pub handed : System (List ℕ)
handed = record run { pending = 32 ∷ []; pc = poll serving }

abbrev pub others : List (System (List ℕ))
others = replicate 3 idle

abbrev pub with_first :
    Shared (List ℕ) → System (List ℕ) → Client.Client Links.sequence Lfq.sequence
with_first sh s = record { shared = sh; stopping = false; twqs = s ∷ others }

abbrev pub given_up : Shared (List ℕ)
given_up = record allocated { job = none }

-- The job is started, and RCU has it.
abbrev pub working : Client.Client Links.sequence Lfq.sequence
working = with_first (cb_start given_up) handed

begun-Turns : Turns Links.sequence Lfq.sequence (with_first begun idle) working
begun-Turns =
    further
      (further
        (further
          (further
            (further
              (further
                (further at_start (
                  Turn.allocates (some (32, 9)) refl refl ((λ e. omega arith), refl)
                    alloc_job-allocated))
                (Turn.adds refl refl
                  (first (adds (Add.enqueue 32 λ h. absurd (omega arith))) refl (λ h. cc))))
              (Turn.turns (first (works (Work.init_ok refl)) refl (λ h. cc))))
            (Turn.turns (first (works (Work.count refl refl (omega arith))) refl (λ h. cc))))
          (Turn.turns (first (works (Work.take refl refl)) refl (λ h. cc))))
        (Turn.starts (first (works (Work.cb_start refl)) refl (λ h. cc))))
      (Turn.turns (first (works (Work.call_rcu refl)) refl (λ h. cc)))

pub begins-Turns :
    Turns Links.sequence Lfq.sequence
      (begins Links.sequence Lfq.sequence 64 (omega arith) 110 [] nothing_allocated refl begun)
      working
unfolding init
begins-Turns = begun-Turns
