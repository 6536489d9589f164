-- ===== src/Main/Writer/Sane.antt =====
-- The steps of the writers of template-v1/src/main.c, seen as steps of its jobs.
use linux_c_template.Prelude.{true, false, ℕ, ◌≡◌, ◌≢◌, inl, inr, refl, none, ap}
use linux_c_template.Prelude.Tests.{is_some, Bool-cases, Option-cases}
use linux_c_template.ListHead.{ListHead}
use linux_c_template.Mempool as Pool
use linux_c_template.Lfq.{Lfq}
use linux_c_template.Main.Client.{
  Client, Turn, allocates, waits, turns, stops, Turns, at_start, further,
}
use linux_c_template.Main.Writer.{Threadfunc, left, Test, Go, Goes, not_yet, then_goes, begin}
use linux_c_template.Main.Writer.Steady.{has_job, On-One, Steady, Go-Steady}

module _ (lh : ListHead) (lfq : Lfq) where
  busy-false : {b : Test lh lfq} → Steady lh lfq b → b.place ≢ left → b.client.stopping ≡ false
  busy-false {b} s h = elim (Bool-cases b.client.stopping) [
    | inl e ↦ absurd (h (s.working e))
    | inr e ↦ e
  ]

  pub no_job :
      {b : Test lh lfq} → Steady lh lfq b → has_job b.place ≡ false → b.client.shared.job ≡ none
  no_job {b} s h = elim (Option-cases b.client.shared.job) [
    | inl e ↦ e
    | inr (j, e) ↦ cc (s.local, h, ap is_some e)
  ]

  single : {c d : Client lh lfq} → Turn lh lfq c d → Turns lh lfq c d
  single t = further at_start t

  -- A step of the writer is a step of the jobs, or changes nothing that is shared.
  pub Go-Turns :
      {f : Threadfunc} {b c : Test lh lfq}
      → Steady lh lfq b
      → Go lh lfq f b c
      → Turns lh lfq b.client c.client
  Go-Turns s (Go.selects e at) = at_start
  Go-Turns s (Go.enters e at) = at_start
  Go-Turns s (Go.gets_none answer at fresh e idle) =
      single (allocates answer (busy-false s (λ h. cc)) (no_job s (cc)) fresh e)
  Go-Turns s (Go.gets answer at fresh e job) =
      single (allocates answer (busy-false s (λ h. cc)) (no_job s (cc)) fresh e)
  Go-Turns s (Go.relaxes now at early) = single (waits (busy-false s (λ h. cc)) (no_job s (cc)))
  Go-Turns s (Go.adds_job at job on) =
      single (Turn.adds (busy-false s (λ h. cc)) job (On-One lfq on))
  Go-Turns s (Go.takes_lock at on) = single (turns (On-One lfq on))
  Go-Turns s (Go.skips at busy) = at_start
  Go-Turns s (Go.tries at on) = single (turns (On-One lfq on))
  Go-Turns s (Go.adds_locked at job on) =
      single (Turn.adds (busy-false s (λ h. cc)) job (On-One lfq on))
  Go-Turns s (Go.signals_worker at on) = single (turns (On-One lfq on))
  Go-Turns s (Go.gives_lock at on) = single (turns (On-One lfq on))
  Go-Turns s (Go.goes_on now at early) = at_start
  Go-Turns s (Go.breaks_full now at late) = at_start
  Go-Turns s (Go.breaks now at late) = at_start
  Go-Turns s (Go.joins at) = single (stops (no_job s (ap has_job at)))
  Go-Turns s (Go.others t by) = single t

  pub Turns-append :
      {a b c : Client lh lfq} → Turns lh lfq a b → Turns lh lfq b c → Turns lh lfq a c
  Turns-append r at_start = r
  Turns-append r (further q t) = further (Turns-append r q) t

  pub Goes-Steady :
      {f : Threadfunc} {b c : Test lh lfq} → Steady lh lfq b → Goes lh lfq f b c → Steady lh lfq c
  Goes-Steady s not_yet = s
  Goes-Steady s (then_goes r g) = Go-Steady lh lfq (Goes-Steady s r) g

  Goes-Turns :
      {f : Threadfunc} {b c : Test lh lfq}
      → Steady lh lfq b
      → Goes lh lfq f b c
      → Turns lh lfq b.client c.client
  Goes-Turns s not_yet = at_start
  Goes-Turns s (then_goes r g) = Turns-append (Goes-Turns s r) (Go-Turns (Goes-Steady s r) g)

  pub begin-Steady : (mp : Pool.State lh.Links) (ts : ℕ) → Steady lh lfq (begin lh lfq mp ts)
  unfolding begin
  begin-Steady mp ts = record { local = refl; working = λ h. cc }

  -- Whatever the threads of a test do, interleaved in any order, is a run of the jobs: the writer
  -- allocates only with no job in hand and before it is joined, adds the job that it was given, once, and
  -- is joined with no job in hand. The local `job` is always set exactly where the writer has a job to
  -- add.
  pub begin-Turns :
      {f : Threadfunc} (mp : Pool.State lh.Links) (ts : ℕ) {c : Test lh lfq}
      → Goes lh lfq f (begin lh lfq mp ts) c
      → Turns lh lfq (begin lh lfq mp ts).client c.client
        × (is_some c.client.shared.job ≡ has_job c.place)
        × (c.client.stopping ≡ true → c.place ≡ left)
  begin-Turns mp ts r =
      let s = Goes-Steady (begin-Steady mp ts) r in
      (Goes-Turns (begin-Steady mp ts) r, s.local, s.working)
