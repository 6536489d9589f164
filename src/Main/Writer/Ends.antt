-- ===== src/Main/Writer/Ends.antt =====
-- How the loops of `threadfunc2` and `threadfunc3` of template-v1/src/main.c end.
use linux_c_template.Prelude.{true, ℕ, ◌+◌, ◌≤◌, ◌≡◌, refl, arith, ap, ◌∙◌}
use linux_c_template.ListHead.{ListHead}
use linux_c_template.Lfq.{Lfq}
use linux_c_template.Main.Writer.{
  Threadfunc, threadfunc2, threadfunc3, Point, loop_top, chosen, full, adding, queued, trying,
  got_lock, to_signal, to_unlock, timing, left, is_late, Test, Go, Goes, not_yet, then_goes,
}

-- How many steps the writer makes to the end of its loop when the time is over, failed trylocks aside.
abbrev pub to_go : Point → ℕ
to_go loop_top = 7
to_go chosen = 6
to_go full = 1
to_go (adding i) = 5
to_go (queued i) = 4
to_go (trying idx) = 5
to_go (got_lock i) = 4
to_go (to_signal i) = 3
to_go (to_unlock i) = 2
to_go timing = 1
to_go left = 0

to_go-most : (p : Point) → to_go p ≤ 7
to_go-most p = ground arith

to_go-left : (p : Point) → to_go p ≡ 0 → p ≡ left
to_go-left p e = ground arith

module _ (lh : ListHead) (lfq : Lfq) where
  -- The steps of the writer in its loop, without the failed trylocks.
  abbrev pub loop_step : {f : Threadfunc} {b c : Test lh lfq} → Go lh lfq f b c → ℕ
  loop_step (Go.skips at busy) = 0
  loop_step (Go.joins at) = 0
  loop_step (Go.others t by) = 0
  loop_step g = 1

  abbrev pub loop_steps : {f : Threadfunc} {b c : Test lh lfq} → Goes lh lfq f b c → ℕ
  loop_steps not_yet = 0
  loop_steps (then_goes r g) = loop_step g + loop_steps r

  -- `clock_gettime` gives no second before `start`.
  abbrev pub ReadsFrom : ℕ → {f : Threadfunc} {b c : Test lh lfq} → Go lh lfq f b c → Type 0
  ReadsFrom start (Go.relaxes now at early) = start ≤ now
  ReadsFrom start (Go.goes_on now at early) = start ≤ now
  ReadsFrom start (Go.breaks_full now at late) = start ≤ now
  ReadsFrom start (Go.breaks now at late) = start ≤ now
  ReadsFrom start g = Unit

  abbrev pub AllFrom : ℕ → {f : Threadfunc} {b c : Test lh lfq} → Goes lh lfq f b c → Type 0
  AllFrom start not_yet = Unit
  AllFrom start (then_goes r g) = ReadsFrom start g × AllFrom start r

  still_late : (ts start now : ℕ) → is_late ts start ≡ true → start ≤ now → is_late ts now ≡ true
  unfolding is_late
  still_late ts start now late le = ground arith

  Go-ts : {f : Threadfunc} {b c : Test lh lfq} → Go lh lfq f b c → c.ts ≡ b.ts
  Go-ts (Go.others t by) = refl
  Go-ts g = refl

  Go-to_go :
      {f : Threadfunc} {b c : Test lh lfq} (start : ℕ) (g : Go lh lfq f b c)
      → is_late b.ts start ≡ true
      → ReadsFrom start g
      → loop_step g + to_go c.place ≤ to_go b.place
  Go-to_go start (Go.selects e at) late reads = omega (arith, ap to_go at)
  Go-to_go start (Go.enters e at) late reads = omega (arith, ap to_go at)
  Go-to_go start (Go.gets_none answer at fresh e idle) late reads = omega (arith, ap to_go at)
  Go-to_go {f = threadfunc2} start (Go.gets answer at fresh e job) late reads =
      omega (arith, ap to_go at)
  Go-to_go {f = threadfunc3} start (Go.gets answer at fresh e job) late reads =
      omega (arith, ap to_go at)
  Go-to_go {b = b} start (Go.relaxes now at early) late reads =
      cc (still_late b.ts start now late reads)
  Go-to_go start (Go.adds_job at job on) late reads = omega (arith, ap to_go at)
  Go-to_go start (Go.takes_lock at on) late reads = omega (arith, ap to_go at)
  Go-to_go start (Go.skips at busy) late reads = omega (arith, ap to_go at)
  Go-to_go start (Go.tries at on) late reads = omega (arith, ap to_go at)
  Go-to_go start (Go.adds_locked at job on) late reads = omega (arith, ap to_go at)
  Go-to_go start (Go.signals_worker at on) late reads = omega (arith, ap to_go at)
  Go-to_go start (Go.gives_lock at on) late reads = omega (arith, ap to_go at)
  Go-to_go {b = b} start (Go.goes_on now at early) late reads =
      cc (still_late b.ts start now late reads)
  Go-to_go start (Go.breaks_full now at now_late) late reads = omega (arith, ap to_go at)
  Go-to_go start (Go.breaks now at now_late) late reads = omega (arith, ap to_go at)
  Go-to_go start (Go.joins at) late reads = omega arith
  Go-to_go start (Go.others t by) late reads = omega arith

  Goes-ts : {f : Threadfunc} {b c : Test lh lfq} → Goes lh lfq f b c → c.ts ≡ b.ts
  Goes-ts not_yet = refl
  Goes-ts (then_goes r g) = Go-ts g ∙ Goes-ts r

  Goes-to_go :
      {f : Threadfunc} {b c : Test lh lfq} (start : ℕ) (r : Goes lh lfq f b c)
      → is_late b.ts start ≡ true
      → AllFrom start r
      → loop_steps r + to_go c.place ≤ to_go b.place
  Goes-to_go start not_yet late reads = omega arith
  Goes-to_go {b = b} start (then_goes {c} {d} r g) late (now, reads) =
      let same : is_late c.ts start ≡ true = ap (λ t. is_late t start) (Goes-ts r) ∙ late in
      omega (arith, Go-to_go start g same now, Goes-to_go start r late reads)

  -- When the clock gives only seconds that are more than `TEST_TIME` behind the start of the loop, the
  -- writer makes, failed trylocks aside, at most as many steps in its loop as its place says, and at most
  -- 7, whatever the other threads do in between; when it has made them all, it has left the loop.
  pub Goes-ends :
      {f : Threadfunc} {b c : Test lh lfq} (start : ℕ) (r : Goes lh lfq f b c)
      → is_late b.ts start ≡ true
      → AllFrom start r
      → (loop_steps r + to_go c.place ≤ to_go b.place)
        × (to_go b.place ≤ 7)
        × (loop_steps r ≡ to_go b.place → c.place ≡ left)
  Goes-ends {b = b} {c} start r late reads =
      let all = Goes-to_go start r late reads in
      (all, to_go-most b.place, λ e. to_go-left c.place (omega arith))
