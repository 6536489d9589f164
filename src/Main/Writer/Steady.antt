-- ===== src/Main/Writer/Steady.antt =====
-- The local `job` of the writers of template-v1/src/main.c, and what the other threads leave alone.
use linux_c_template.Prelude.{Bool, true, false, ℕ, ◌+◌, ◌%◌, ◌^◌, ◌≡◌, refl, List, ap, ◌∙◌}
use linux_c_template.Prelude.Tests.{is_some}
use linux_c_template.Prelude.Outcome.{Outcome, ok, ◌>>=◌}
use linux_c_template.ListHead.{ListHead}
use linux_c_template.Mempool as Pool
use linux_c_template.Lfq.{Lfq}
use linux_c_template.Threadwq.{System, Add, adds}
use linux_c_template.Threadwq.Jobs.{Event, quiet, added, add_event}
use linux_c_template.Main.Client.{
  Shared, count_wait, cb_finish, cb_start, One, first, beyond, Client, Turn, allocates, waits,
  turns, starts, finishes, stops, writes,
}
use linux_c_template.Main.Writer.{
  Threadfunc, threadfunc2, threadfunc3, Point, adding, trying, got_lock, left, AddCall, puts,
  puts_locked, call, On, this, that, by_writer, Test, Go,
}

-- The writer has a job that no queue has.
abbrev pub has_job : Point → Bool
has_job (adding i) = true
has_job (trying i) = true
has_job (got_lock i) = true
has_job _ = false

abbrev pub event_of : AddCall → Event
event_of (puts j) = added j
event_of (puts_locked j) = added j
event_of _ = quiet

module _ (lfq : Lfq) where
  call-event : {s t : System lfq.Queue} (a : Add lfq s t) → add_event lfq a ≡ event_of (call lfq a)
  call-event (Add.enqueue j real) = refl
  call-event (Add.add_lock e f) = refl
  call-event (Add.trylock e) = refl
  call-event (Add.enqueue_locked j real e) = refl
  call-event (Add.signal e) = refl
  call-event (Add.add_unlock e) = refl

  pub On-One :
      {stopping : Bool} {i : ℕ} {what : AddCall} {ss ts : List (System lfq.Queue)}
      → On lfq i what ss ts
      → One lfq stopping ss (event_of what) ts
  On-One (this a e) = first (adds a) (call-event a ∙ ap event_of e) (λ h. cc)
  On-One (that o) = beyond (On-One o)

module _ (lh : ListHead) (lfq : Lfq) where
  cb_finish-job : (j : ℕ) (c sh : Shared lh.Links) → cb_finish lh j c ≡ ok sh → sh.job ≡ c.job
  unfolding cb_finish
  cb_finish-job j c sh e = go (Pool.free lh j c.mp) e
    where
      go :
          (r : Outcome (Pool.State lh.Links))
          → (r >>= λ mp. ok (record c { mp = mp; cnt_finish = (c.cnt_finish + 1) % 2 ^ 64 }))
            ≡ ok sh
          → sh.job ≡ c.job
      go (ok mp) f = cc
      go Outcome.aborted f = cc
      go Outcome.fault f = cc
      go Outcome.deadlocked f = cc
      go Outcome.out_of_fuel f = cc

  -- The other threads leave the writer's local alone, and do not join the writer.
  pub other-job :
      {c d : Client lh lfq} (t : Turn lh lfq c d)
      → by_writer lh lfq t ≡ false
      → (d.shared.job ≡ c.shared.job) × (d.stopping ≡ c.stopping)
  unfolding cb_start
  other-job (allocates answer e free fresh f) b = cc
  other-job (waits e free) b = cc
  other-job (Turn.adds e f step) b = cc
  other-job (turns step) b = (refl, refl)
  other-job (starts step) b = (refl, refl)
  other-job {c} (finishes {j} {sh = sh} step e) b = (cb_finish-job j c.shared sh e, refl)
  other-job (stops e) b = cc
  other-job (writes p mem h own) b = (refl, refl)

  -- The writer's local is set where the writer has a job to add, and only a writer that has left its
  -- loop is joined.
  pub record Steady (b : Test lh lfq) : Type 0 where
    pub local : is_some b.client.shared.job ≡ has_job b.place
    pub working : b.client.stopping ≡ true → b.place ≡ left

  pub Go-Steady : {f : Threadfunc} {b c : Test lh lfq} → Steady b → Go lh lfq f b c → Steady c
  unfolding count_wait
  Go-Steady s (Go.selects e at) = record {
    local = s.local ∙ ap has_job at;
    working = λ h. cc (s.working h);
  }
  Go-Steady s (Go.enters e at) = record {
    local = s.local ∙ ap has_job at;
    working = λ h. cc (s.working h);
  }
  Go-Steady s (Go.gets_none answer at fresh e idle) = record {
    local = ap is_some idle;
    working = λ h. cc (s.working h);
  }
  Go-Steady {f = threadfunc2} s (Go.gets answer at fresh e job) = record {
    local = ap is_some job;
    working = λ h. cc (s.working h);
  }
  Go-Steady {f = threadfunc3} s (Go.gets answer at fresh e job) = record {
    local = ap is_some job;
    working = λ h. cc (s.working h);
  }
  Go-Steady s (Go.relaxes now at early) = record {
    local = s.local ∙ ap has_job at;
    working = λ h. cc (s.working h);
  }
  Go-Steady s (Go.adds_job at job on) = record { local = refl; working = λ h. cc (s.working h) }
  Go-Steady s (Go.takes_lock at on) = record {
    local = s.local ∙ ap has_job at;
    working = λ h. cc (s.working h);
  }
  Go-Steady s (Go.skips at busy) = record {
    local = s.local ∙ ap has_job at;
    working = λ h. cc (s.working h);
  }
  Go-Steady s (Go.tries at on) = record {
    local = s.local ∙ ap has_job at;
    working = λ h. cc (s.working h);
  }
  Go-Steady s (Go.adds_locked at job on) = record { local = refl; working = λ h. cc (s.working h) }
  Go-Steady s (Go.signals_worker at on) = record {
    local = s.local ∙ ap has_job at;
    working = λ h. cc (s.working h);
  }
  Go-Steady s (Go.gives_lock at on) = record {
    local = s.local ∙ ap has_job at;
    working = λ h. cc (s.working h);
  }
  Go-Steady s (Go.goes_on now at early) = record {
    local = s.local ∙ ap has_job at;
    working = λ h. cc (s.working h);
  }
  Go-Steady s (Go.breaks_full now at late) = record {
    local = s.local ∙ ap has_job at;
    working = λ h. refl;
  }
  Go-Steady s (Go.breaks now at late) = record {
    local = s.local ∙ ap has_job at;
    working = λ h. refl;
  }
  Go-Steady s (Go.joins at) = record { local = s.local; working = λ h. at }
  Go-Steady s (Go.others t by) =
      let (job, stopping) = other-job t by in
      record { local = ap is_some job ∙ s.local; working = λ h. s.working (cc (h, stopping)) }
