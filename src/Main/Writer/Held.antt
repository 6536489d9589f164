-- ===== src/Main/Writer/Held.antt =====
-- What holds in every state of a test of template-v1/src/main.c: the writer's indices are within its
-- table, and it holds a mutex exactly in its calls.
use linux_c_template.Prelude.{ℕ, ◌+◌, ◌<◌, ◌≤◌, ◌≡◌, refl, List, [], arith, subst, ◌∙◌}
use linux_c_template.Prelude.Lists.{length}
use linux_c_template.ListHead.{ListHead}
use linux_c_template.Mempool as Pool
use linux_c_template.Mempool.Invariant.{IsPool}
use linux_c_template.Lfq.{Lfq}
use linux_c_template.Threadwq.{System, init}
use linux_c_template.Main.Client.{twqnum, max_jobs, new_test}
use linux_c_template.Main.Client.Queues.{Queues, init_multi-Queues}
use linux_c_template.Main.Client.Safe.{Owned, Turns-Owned, new_test-Owns}
use linux_c_template.Main.Client.Clean.{Turns-Queues}
use linux_c_template.Main.Writer.{
  Threadfunc, threadfunc2, threadfunc3, Point, loop_top, chosen, full, adding, queued, trying,
  got_lock, to_signal, to_unlock, timing, left, AddCall, On, select_next, wrap, Test, Go, Goes,
  not_yet, then_goes, begin,
}
use linux_c_template.Main.Writer.Sane.{begin-Steady, Go-Turns}
use linux_c_template.Main.Writer.Steady.{Steady, Go-Steady}
use linux_c_template.Main.Writer.Roles.{
  Moves, Same, AllMatch, AllMatch-Same, On-AllMatch, AllControl,
}
use linux_c_template.Main.Writer.Others.{Queues-Control, Turns-length, other-AllMatch}

-- The writer is in a call of its own kind, and the index is that of a queue.
abbrev pub Within : Threadfunc → Point → Type 0
Within f (adding i) = (f ≡ threadfunc2) × (i < twqnum)
Within f (queued i) = (f ≡ threadfunc2) × (i < twqnum)
Within f (trying idx) = (f ≡ threadfunc3) × (idx ≤ twqnum)
Within f (got_lock i) = (f ≡ threadfunc3) × (i < twqnum)
Within f (to_signal i) = i < twqnum
Within f (to_unlock i) = i < twqnum
Within f _ = Unit

-- `select_twq` is that of a queue, and `man->rr.twq_idx` at most one behind the last.
abbrev pub Selected : Threadfunc → ℕ → Type 0
Selected threadfunc2 i = i < twqnum
Selected threadfunc3 i = i ≤ twqnum

module _ (lh : ListHead) (lfq : Lfq) where
  pub record Sound (f : Threadfunc) (b : Test lh lfq) : Type 0 where
    pub steady : Steady lh lfq b
    pub matches : AllMatch lfq b.place 0 b.client.twqs
    pub sized : length b.client.twqs ≡ twqnum
    pub queues : Queues lfq b.client.stopping b.client.twqs
    pub owned : Owned lh lfq b.client
    pub selected : Selected f b.select
    pub within : Within f b.place

  on_way :
      (ss : List (System lfq.Queue)) {now : Point} (p q : Point)
      → now ≡ p
      → ((n : ℕ) → Same p q n)
      → AllMatch lfq now 0 ss
      → AllMatch lfq q 0 ss
  on_way ss p q at same m =
      AllMatch-Same lfq p q 0 ss (λ n le. same n) (subst (λ x. AllMatch lfq x 0 ss) at m)

  in_call :
      {i : ℕ} {what : AddCall} {ss ts : List (System lfq.Queue)} {now : Point} (p q : Point)
      → now ≡ p
      → Moves i p what q
      → On lfq i what ss ts
      → AllMatch lfq now 0 ss
      → AllMatch lfq q 0 ts
  in_call {i} {ss = ss} p q at mv on m =
      On-AllMatch lfq 0 i (omega arith) mv on (subst (λ x. AllMatch lfq x 0 ss) at m)

  Go-AllMatch :
      {f : Threadfunc} {b c : Test lh lfq}
      → AllControl lfq b.client.twqs
      → AllMatch lfq b.place 0 b.client.twqs
      → Go lh lfq f b c
      → AllMatch lfq c.place 0 c.client.twqs
  Go-AllMatch cs m (Go.selects e at) = on_way _ loop_top chosen at (λ n. (refl, refl)) m
  Go-AllMatch cs m (Go.enters e at) = on_way _ loop_top chosen at (λ n. (refl, refl)) m
  Go-AllMatch cs m (Go.gets_none answer at fresh e idle) =
      on_way _ chosen full at (λ n. (refl, refl)) m
  Go-AllMatch {f = threadfunc2} {b} cs m (Go.gets answer at fresh e job) =
      on_way _ chosen (adding b.select) at (λ n. (refl, refl)) m
  Go-AllMatch {f = threadfunc3} {b} cs m (Go.gets answer at fresh e job) =
      on_way _ chosen (trying b.select) at (λ n. (refl, refl)) m
  Go-AllMatch cs m (Go.relaxes now at early) = on_way _ full loop_top at (λ n. (refl, refl)) m
  Go-AllMatch cs m (Go.adds_job {i} {j} at job on) =
      in_call (adding i) (queued i) at (Moves.put j) on m
  Go-AllMatch cs m (Go.takes_lock {i} at on) = in_call (queued i) (to_signal i) at Moves.lock on m
  Go-AllMatch cs m (Go.skips {idx} at busy) =
      on_way _ (trying idx) (trying (wrap idx + 1)) at (λ n. (refl, refl)) m
  Go-AllMatch cs m (Go.tries {idx} at on) =
      in_call (trying idx) (got_lock (wrap idx)) at (Moves.trylock idx) on m
  Go-AllMatch cs m (Go.adds_locked {i} {j} at job on) =
      in_call (got_lock i) (to_signal i) at (Moves.put_locked j) on m
  Go-AllMatch cs m (Go.signals_worker {i} at on) =
      in_call (to_signal i) (to_unlock i) at Moves.signal on m
  Go-AllMatch cs m (Go.gives_lock {i} at on) = in_call (to_unlock i) timing at Moves.unlock on m
  Go-AllMatch cs m (Go.goes_on now at early) = on_way _ timing loop_top at (λ n. (refl, refl)) m
  Go-AllMatch cs m (Go.breaks_full now at late) = on_way _ full left at (λ n. (refl, refl)) m
  Go-AllMatch cs m (Go.breaks now at late) = on_way _ timing left at (λ n. (refl, refl)) m
  Go-AllMatch cs m (Go.joins at) = m
  Go-AllMatch {b = b} cs m (Go.others t by) = other-AllMatch lh lfq b.place t by cs m

  select_next-lt : (i : ℕ) → select_next i < twqnum
  unfolding select_next
  select_next-lt i = ground arith

  pub wrap-lt : (i : ℕ) → wrap i < twqnum
  unfolding wrap
  wrap-lt i = ground arith

  Go-bounds :
      {f : Threadfunc} {b c : Test lh lfq}
      → Selected f b.select
      → Within f b.place
      → Go lh lfq f b c
      → Selected f c.select × Within f c.place
  Go-bounds {f = threadfunc2} {b} s w (Go.selects e at) = (select_next-lt b.select, tt)
  Go-bounds {f = threadfunc3} s w (Go.selects e at) = cc
  Go-bounds s w (Go.enters e at) = (s, tt)
  Go-bounds s w (Go.gets_none answer at fresh e idle) = (s, tt)
  Go-bounds {f = threadfunc2} s w (Go.gets answer at fresh e job) = (s, (refl, s))
  Go-bounds {f = threadfunc3} s w (Go.gets answer at fresh e job) = (s, (refl, s))
  Go-bounds s w (Go.relaxes now at early) = (s, tt)
  Go-bounds {f} s w (Go.adds_job at job on) = (s, subst (Within f) at w)
  Go-bounds {f} s w (Go.takes_lock at on) = (s, (subst (Within f) at w).1)
  Go-bounds {f} s w (Go.skips {idx} at busy) =
      (s, ((subst (Within f) at w).0, omega (arith, wrap-lt idx)))
  Go-bounds {f = threadfunc2} s w (Go.tries at on) = cc ((subst (Within threadfunc2) at w).0)
  Go-bounds {f = threadfunc3} s w (Go.tries {idx} at on) =
      (omega (arith, wrap-lt idx), (refl, wrap-lt idx))
  Go-bounds {f} s w (Go.adds_locked at job on) = (s, (subst (Within f) at w).1)
  Go-bounds {f} s w (Go.signals_worker at on) = (s, subst (Within f) at w)
  Go-bounds s w (Go.gives_lock at on) = (s, tt)
  Go-bounds s w (Go.goes_on now at early) = (s, tt)
  Go-bounds s w (Go.breaks_full now at late) = (s, tt)
  Go-bounds s w (Go.breaks now at late) = (s, tt)
  Go-bounds s w (Go.joins at) = (s, w)
  Go-bounds s w (Go.others t by) = (s, w)

  Go-Sound : {f : Threadfunc} {b c : Test lh lfq} → Sound f b → Go lh lfq f b c → Sound f c
  Go-Sound {f} {b} {c} s g =
      let turns = Go-Turns lh lfq s.steady g in
      let (selected, within) = Go-bounds s.selected s.within g in
      record {
        steady = Go-Steady lh lfq s.steady g;
        matches =
            Go-AllMatch (Queues-Control lfq b.client.stopping b.client.twqs s.queues) s.matches g;
        sized = Turns-length lh lfq turns ∙ s.sized;
        queues = Turns-Queues lh lfq s.queues turns;
        owned = Turns-Owned lh lfq s.owned turns;
        selected = selected;
        within = within;
      }

  pub Goes-Sound : {f : Threadfunc} {b c : Test lh lfq} → Sound f b → Goes lh lfq f b c → Sound f c
  Goes-Sound s not_yet = s
  Goes-Sound s (then_goes r g) = Go-Sound (Goes-Sound s r) g

  pub begin-Sound :
      (f : Threadfunc) (mp : Pool.State lh.Links) (ts : ℕ)
      → IsPool lh [] mp
      → mp.pool.max ≡ max_jobs
      → Sound f (begin lh lfq mp ts)
  unfolding begin new_test init
  begin-Sound f mp ts pool limit = record {
    steady = begin-Steady lh lfq mp ts;
    matches = ((refl, refl), ((refl, refl), ((refl, refl), ((refl, refl), tt))));
    sized = refl;
    queues = init_multi-Queues lfq;
    owned = ([], new_test-Owns lh lfq mp pool limit);
    selected = at_zero f;
    within = tt;
  }
    where
      at_zero : (f : Threadfunc) → Selected f 0
      at_zero threadfunc2 = omega arith
      at_zero threadfunc3 = omega arith
