-- ===== src/Main/Client.antt =====
-- template-v1/src/main.c: the statics that `threadfunc2` and `threadfunc3`, the callbacks of their jobs
-- and the work queues share. A job is a slice of the pool `mp`.
pub mod Holdings
pub mod Owns
pub mod Handed
pub mod Safe
pub mod Queues
pub mod Clean
pub mod Sample
pub mod Stopping
mod Examples
use linux_c_template.Prelude.{
  Bool, true, false, ℕ, ◌+◌, ◌*◌, ◌%◌, ◌^◌, ◌<◌, ◌≡◌, ◌≢◌, ◌⊎◌, Option, none, some, List, [], ◌∷◌,
}
use linux_c_template.Prelude.Tests.{◌==◌, if◌then◌else◌}
use linux_c_template.Prelude.Lists.{replicate, ◌∈◌}
use linux_c_template.Prelude.Outcome.{Outcome, ok, ◌>>=◌}
use linux_c_template.ListHead.{ListHead}
use linux_c_template.Mempool as Pool
use linux_c_template.Mempool.{Memory, null}
use linux_c_template.Mempool.Invariant.{IsFresh}
use linux_c_template.Mempool.Shape.{OwnBlock}
use linux_c_template.Lfq.{Lfq}
use linux_c_template.Threadwq.{System, Step, kills}
use linux_c_template.Threadwq as Threadwq
use linux_c_template.Threadwq.Jobs.{Event, quiet, added, started, finished, event, jobs}

-- `TWQNUM`
abbrev pub twqnum : ℕ
twqnum = 4

-- The address of the static `mp`, which is not `NULL`
abbrev pub static_mp : ℕ
static_mp = 64

-- The third argument of `mempool_init`.
abbrev pub max_jobs : ℕ
max_jobs = 65536 * 4

-- `mp` and the counters, with the job that the writer has allocated and not added yet. `accl` is the
-- writer's own `unsigned int`, the others are `unsigned long`.
pub record Shared (Links : Type 0) : Type 0 where
  pub mp : Pool.State Links
  pub wait : ℕ
  pub cnt_start : ℕ
  pub cnt_finish : ℕ
  pub accl : ℕ
  pub job : Option ℕ

module _ {Links : Type 0} where
  -- `wait++` of a writer that was given no job
  unfoldable pub count_wait : Shared Links → Shared Links
  count_wait c = record c { wait = (c.wait + 1) % 2 ^ 64 }

  -- `cb_start`, as far as others see it
  unfoldable pub cb_start : Shared Links → Shared Links
  cb_start c = record c { cnt_start = (c.cnt_start + 1) % 2 ^ 64 }

  -- The counters at the start of a test
  unfoldable pub new_test : Pool.State Links → Shared Links
  new_test mp = record { mp = mp; wait = 0; cnt_start = 0; cnt_finish = 0; accl = 0; job = none }

module _ (lh : ListHead) where
  -- `cb_finish`
  unfoldable pub cb_finish : ℕ → Shared lh.Links → Outcome (Shared lh.Links)
  cb_finish j c = do
    mp ← Pool.free lh j c.mp
    ok (record c { mp = mp; cnt_finish = (c.cnt_finish + 1) % 2 ^ 64 })

  -- The writer's call of `mempool_alloc`, and `accl`. `answer` is what `malloc` returns.
  unfoldable pub alloc_job : Option (ℕ × ℕ) → Shared lh.Links → Outcome (Shared lh.Links)
  alloc_job answer c = do
    (p, mp) ← Pool.alloc lh answer c.mp
    ok (
        if p == null
        then record c { mp = mp }
        else record c { mp = mp; accl = (c.accl + 1) % 2 ^ 32; job = some p })

  -- `mempool_init` of `main`, and the counters at the start of a test. `size` is that of a job.
  unfoldable pub start : ℕ → List ℕ → Memory → Outcome (Shared lh.Links)
  unfolding new_test
  start size name mem = do
    mp ← Pool.init lh static_mp (some name) size max_jobs none none mem
    ok (new_test mp)

module _ (lfq : Lfq) where
  -- Whether a step is one of the thread in `threadwq_exit`.
  abbrev pub is_kill : {s t : System lfq.Queue} → Step lfq s t → Bool
  is_kill (kills k) = true
  is_kill _ = false

  -- A step of one of the queues, which is shut down only when it is `stopping`.
  pub data One (stopping : Bool)
      : List (System lfq.Queue) → Event → List (System lfq.Queue) → Type 0 where
    first :
        {s t : System lfq.Queue} {rest : List (System lfq.Queue)} {e : Event} (st : Step lfq s t)
        → event lfq st ≡ e
        → (is_kill st ≡ true → stopping ≡ true)
        → One stopping (s ∷ rest) e (t ∷ rest)
    beyond :
        {s : System lfq.Queue} {rest rest' : List (System lfq.Queue)} {e : Event}
        → One stopping rest e rest'
        → One stopping (s ∷ rest) e (s ∷ rest')

  -- One of the queues has the job `p`: it waits, or it is not finished.
  pub data Any (p : ℕ) : List (System lfq.Queue) → Type 0 where
    among :
        {s : System lfq.Queue} {rest : List (System lfq.Queue)}
        → (p ∈ (jobs lfq s).waiting) ⊎ (p ∈ (jobs lfq s).unfinished)
        → Any p (s ∷ rest)
    later : {s : System lfq.Queue} {rest : List (System lfq.Queue)} → Any p rest → Any p (s ∷ rest)

  -- `threadwq_init_multi` and `threadwq_exec_multi`
  abbrev pub init_multi : List (System lfq.Queue)
  init_multi = replicate twqnum (Threadwq.init lfq)

abbrev pub writer_jobs : Option ℕ → List ℕ
writer_jobs none = []
writer_jobs (some j) = j ∷ []

module _ (lh : ListHead) (lfq : Lfq) where
  -- `stopping` is whether the writer has been joined, before `threadwq_exit_multi`.
  pub record Client : Type 0 where
    pub shared : Shared lh.Links
    pub stopping : Bool
    pub twqs : List (System lfq.Queue)

  -- The writer or a queue has the job `p`.
  abbrev pub IsHeld : ℕ → Client → Type 0
  IsHeld p c = (p ∈ writer_jobs c.shared.job) ⊎ Any lfq p c.twqs

  -- A step of the writer, or of the threads of a queue, its shutdown included, or of RCU. The writer
  -- adds to any of the queues. Whoever has a job may write to it.
  pub data Turn (c : Client) : Client → Type 0 where
    allocates :
        (answer : Option (ℕ × ℕ)) {sh : Shared lh.Links}
        → c.stopping ≡ false
        → c.shared.job ≡ none
        → IsFresh answer c.shared.mp.mem
        → alloc_job lh answer c.shared ≡ ok sh
        → Turn c (record c { shared = sh })
    waits :
        c.stopping ≡ false
        → c.shared.job ≡ none
        → Turn c (record c { shared = count_wait c.shared })
    adds :
        {j : ℕ} {twqs' : List (System lfq.Queue)}
        → c.stopping ≡ false
        → c.shared.job ≡ some j
        → One lfq c.stopping c.twqs (added j) twqs'
        → Turn c (record c { shared = record c.shared { job = none }; twqs = twqs' })
    turns :
        {twqs' : List (System lfq.Queue)}
        → One lfq c.stopping c.twqs quiet twqs'
        → Turn c (record c { twqs = twqs' })
    starts :
        {j : ℕ} {twqs' : List (System lfq.Queue)}
        → One lfq c.stopping c.twqs (started j) twqs'
        → Turn c (record c { shared = cb_start c.shared; twqs = twqs' })
    finishes :
        {j : ℕ} {twqs' : List (System lfq.Queue)} {sh : Shared lh.Links}
        → One lfq c.stopping c.twqs (finished j) twqs'
        → cb_finish lh j c.shared ≡ ok sh
        → Turn c (record c { shared = sh; twqs = twqs' })
    stops : c.shared.job ≡ none → Turn c (record c { stopping = true })
    writes :
        (p : ℕ) (mem' : Memory)
        → IsHeld p c
        → OwnBlock p c.shared.mp.mem mem'
        → Turn c (record c { shared = record c.shared { mp = record c.shared.mp { mem = mem' } } })

  pub data Turns (c : Client) : Client → Type 0 where
    at_start : Turns c c
    further : {d e : Client} → Turns c d → Turn d e → Turns c e
