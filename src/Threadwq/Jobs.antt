-- ===== src/Threadwq/Jobs.antt =====
-- What the work queue of template-v1/src/threadwq/threadwq.c promises: a queue of jobs, those that
-- were started and are not finished, and three things that can happen. The threads, the mutex and the
-- flags are not seen here.
pub mod Refines
use linux_c_template.Prelude.{ℕ, ◌≡◌, List, [], ◌∷◌, ◌++◌}
use linux_c_template.Lfq.{Lfq}
use linux_c_template.Threadwq.{System, Work, Add, Kill, Step, works, adds, kills, grace}
use linux_c_template.Threadwq.Facts.{in_hand, in_flight}

pub record Jobs : Type 0 where
  pub waiting : List ℕ
  pub unfinished : List ℕ

-- What a step shows to the threads that use the queue.
pub data Event : Type 0 where
  quiet : Event
  added started finished : ℕ → Event

-- Jobs wait in the order in which they are added, start from the front, and finish in any order.
pub data Move (a : Jobs) : Event → Jobs → Type 0 where
  stay : Move a quiet a
  add : (j : ℕ) → Move a (added j) (record a { waiting = a.waiting ++ j ∷ [] })
  start :
      (j : ℕ) (rest : List ℕ)
      → a.waiting ≡ j ∷ rest
      → Move a (started j) (record { waiting = rest; unfinished = j ∷ a.unfinished })
  finish :
      (xs : List ℕ) (j : ℕ) (ys : List ℕ)
      → a.unfinished ≡ xs ++ j ∷ ys
      → Move a (finished j) (record a { unfinished = xs ++ ys })

pub data Run (a : Jobs) : List Event → Jobs → Type 0 where
  none_yet : Run a [] a
  next : {es : List Event} {e : Event} {b c : Jobs} → Run a es b → Move b e c → Run a (e ∷ es) c

abbrev pub nothing : Jobs
nothing = record { waiting = []; unfinished = [] }

module _ (lfq : Lfq) where
  -- The jobs that a state of the threads stands for.
  abbrev pub jobs : System lfq.Queue → Jobs
  jobs s = record {
    waiting = in_hand s.pc ++ lfq.contents s.queue;
    unfinished = in_flight s.pc ++ s.pending;
  }

  abbrev pub work_event : {s t : System lfq.Queue} → Work lfq s t → Event
  work_event (Work.cb_start {j = j} _) = started j
  work_event (Work.take _ _) = quiet
  work_event _ = quiet

  abbrev pub add_event : {s t : System lfq.Queue} → Add lfq s t → Event
  add_event (Add.enqueue j real) = added j
  add_event (Add.enqueue_locked j real _) = added j
  add_event _ = quiet

  abbrev pub event : {s t : System lfq.Queue} → Step lfq s t → Event
  event (works w) = work_event w
  event (adds a) = add_event a
  event (kills k) = quiet
  event (grace j _) = finished j
