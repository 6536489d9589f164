-- ===== src/Main/Writer/Moves.antt =====
-- The writer of template-v1/src/main.c is never stuck: what it waits for is given back.
use linux_c_template.Prelude.{
  Bool, true, false, ℕ, ◌<◌, ◌≡◌, ◌≢◌, ◌⊎◌, inl, inr, refl, Option, some, List, [], arith, ap,
  subst,
}
use linux_c_template.Prelude.Tests.{is_some, Bool-cases, Option-cases}
use linux_c_template.Prelude.Lists.{◌∈◌}
use linux_c_template.Prelude.Outcome.{ok, Returns-run}
use linux_c_template.ListHead.{ListHead}
use linux_c_template.Mempool as Pool
use linux_c_template.Mempool.Invariant.{IsFresh, IsPool}
use linux_c_template.Lfq.{Lfq}
use linux_c_template.Threadwq.{System, Add, unlocked, absent}
use linux_c_template.Threadwq.Invariant.{Reach-Inv}
use linux_c_template.Main.Client.{twqnum, max_jobs, Shared, alloc_job, turns, writer_jobs}
use linux_c_template.Main.Client.Owns.{Owns, IsHeld-mem}
use linux_c_template.Main.Client.Handed.{Handed, nothing, job, allocates-Handed}
use linux_c_template.Main.Writer.{
  Threadfunc, threadfunc2, threadfunc3, Point, loop_top, chosen, full, adding, queued, trying,
  got_lock, to_signal, to_unlock, timing, left, is_late, wrap, puts, puts_locked, locks, trylocks,
  signals, unlocks, Test, Go, Goes, begin,
}
use linux_c_template.Main.Writer.Sane.{no_job}
use linux_c_template.Main.Writer.Steady.{has_job}
use linux_c_template.Main.Writer.Table.{
  mutex-unlocked, hold-taken, hold-adder, hold-signalled, absent-cases, At, pick, At-On, At-IsBusy,
  At-Match, At-Queue, At-One, gives_back,
}
use linux_c_template.Main.Writer.Roles.{Match, AllMatch}
use linux_c_template.Main.Writer.Held.{Sound, Goes-Sound, begin-Sound, Within, Selected, wrap-lt}

-- A step of the writer or of the thread that joins it.
abbrev pub is_own :
    (lh : ListHead) (lfq : Lfq) {f : Threadfunc} {b c : Test lh lfq} → Go lh lfq f b c → Bool
is_own lh lfq (Go.others t by) = false
is_own lh lfq g = true

module _ (lh : ListHead) (lfq : Lfq) (f : Threadfunc) (b : Test lh lfq) where
  abbrev pub Own : Type 0
  Own = (c : Test lh lfq) × (g : Go lh lfq f b c) × (is_own lh lfq g ≡ true)

  -- The writer waits for the mutex of one queue, and the worker of that queue gives it back by its
  -- next step.
  pub record Waits : Type 0 where
    pub i : ℕ
    pub at : b.place ≡ queued i
    pub after : Test lh lfq
    pub step : Go lh lfq f b after
    pub same : after.place ≡ queued i
    pub s : System lfq.Queue
    pub of : At lfq i s after.client.twqs
    pub free : s.mutex ≡ unlocked

  module _ (s : Sound lh lfq f b) (answer : Option (ℕ × ℕ))
      (fresh : IsFresh answer b.client.shared.mp.mem) (now : ℕ) where
    chosen-Own : b.place ≡ chosen → Own
    chosen-Own at =
        let idle = no_job lh lfq s.steady (ap has_job at) in
        let (live, o) = s.owned in
        let (sh, e, h) = Returns-run (allocates-Handed lh lfq b.client answer o idle fresh) in
        go sh e h
      where
        go :
            {live : List ℕ} (sh : Shared lh.Links)
            → alloc_job lh answer b.client.shared ≡ ok sh
            → Handed lh lfq live b.client sh
            → Own
        go sh e (nothing idle o) = (_, Go.gets_none answer at fresh e idle, refl)
        go sh e (job p given out o) = (_, Go.gets answer at fresh e given, refl)

    timed-Own : b.place ≡ timing → Own
    timed-Own at = elim (Bool-cases (is_late b.ts now)) [
      | inl late ↦ (_, Go.breaks now at late, refl)
      | inr early ↦ (_, Go.goes_on now at early, refl)
    ]

    full-Own : b.place ≡ full → Own
    full-Own at = elim (Bool-cases (is_late b.ts now)) [
      | inl late ↦ (_, Go.breaks_full now at late, refl)
      | inr early ↦ (_, Go.relaxes now at early, refl)
    ]

    -- The queue that the writer is in a call for.
    table : (i : ℕ) → i < twqnum → (q : System lfq.Queue) × At lfq i q b.client.twqs
    table i lt = pick lfq i b.client.twqs (omega (arith, s.sized))

    held_at :
        {i : ℕ} {q : System lfq.Queue} (p : Point)
        → b.place ≡ p
        → At lfq i q b.client.twqs
        → Match lfq p i q
    held_at {i} p at of =
        At-Match lfq p 0 i (omega arith) of
          (subst (λ x. AllMatch lfq x 0 b.client.twqs) at s.matches)

    given : has_job b.place ≡ true → (j : ℕ) × (b.client.shared.job ≡ some j)
    given h = elim (Option-cases b.client.shared.job) [
      | inl e ↦ cc (s.steady.local, h, ap is_some e)
      | inr r ↦ r
    ]

    real :
        {live : List ℕ} (j : ℕ) → Owns lh lfq live b.client → b.client.shared.job ≡ some j → j ≢ 0
    real {live} j o e null =
        let mine : j ∈ writer_jobs b.client.shared.job = rw e (ground arith) in
        ground (
          arith,
          o.pool.owned.shape.held j (IsHeld-mem lh lfq j b.client o (inl mine)),
          o.pool.owned.shape.no_null,
        )

    adding-Own : (i : ℕ) → b.place ≡ adding i → Own
    adding-Own i at =
        let (_, lt) = subst (Within f) at s.within in
        let (q, of) = table i lt in
        let (j, e) = given (ap has_job at) in
        let (ts, on) = At-On lfq (puts j) of (Add.enqueue j (real j s.owned.1 e)) refl in
        (_, Go.adds_job at e on, refl)

    trying-Own : (idx : ℕ) → b.place ≡ trying idx → Own
    trying-Own idx at =
        let (q, of) = table (wrap idx) (wrap-lt lh lfq idx) in
        elim (mutex-unlocked q.mutex) [
          | inl free ↦
              let (ts, on) = At-On lfq trylocks of (Add.trylock free) refl in
              (_, Go.tries at on, refl)
          | inr busy ↦ (_, Go.skips at (At-IsBusy lfq of busy), refl)
        ]

    got_lock-Own : (i : ℕ) → b.place ≡ got_lock i → Own
    got_lock-Own i at =
        let (_, lt) = subst (Within f) at s.within in
        let (q, of) = table i lt in
        let (j, e) = given (ap has_job at) in
        let (_, h) = held_at (got_lock i) at of in
        let mine = hold-taken q.mutex (ground (arith, h)) in
        let (ts, on) =
          At-On lfq (puts_locked j) of (Add.enqueue_locked j (real j s.owned.1 e) mine) refl in
        (_, Go.adds_locked at e on, refl)

    to_signal-Own : (i : ℕ) → b.place ≡ to_signal i → Own
    to_signal-Own i at =
        let (q, of) = table i (subst (Within f) at s.within) in
        let (_, h) = held_at (to_signal i) at of in
        let mine = hold-adder q.mutex (ground (arith, h)) in
        let (ts, on) = At-On lfq signals of (Add.signal mine) refl in
        (_, Go.signals_worker at on, refl)

    to_unlock-Own : (i : ℕ) → b.place ≡ to_unlock i → Own
    to_unlock-Own i at =
        let (q, of) = table i (subst (Within f) at s.within) in
        let (_, h) = held_at (to_unlock i) at of in
        let mine = hold-signalled q.mutex (ground (arith, h)) in
        let (ts, on) = At-On lfq unlocks of (Add.add_unlock mine) refl in
        (_, Go.gives_lock at on, refl)

    waiting :
        (i : ℕ) (q : System lfq.Queue)
        → b.place ≡ queued i
        → At lfq i q b.client.twqs
        → q.mutex ≢ unlocked
        → Waits
    waiting i q at of busy =
        let known = At-Queue lfq b.client.stopping of s.queues in
        let (_, h) = held_at (queued i) at of in
        let alone : q.killer ≡ absent = elim (absent-cases q.killer) [
          | inl e ↦ e
          | inr ne ↦ cc (s.steady.working (known.asked ne))
        ] in
        let (t, w, calm, free) =
          gives_back lfq (Reach-Inv lfq known.reached).control alone h busy in
        let (ts, o, by, of') = At-One lfq b.client.stopping of w calm in
        record {
          i = i;
          at = at;
          after = record b { client = record b.client { twqs = ts } };
          step = Go.others (turns o) by;
          same = at;
          s = t;
          of = of';
          free = free;
        }

    queued-Own : (i : ℕ) → b.place ≡ queued i → Own ⊎ Waits
    queued-Own i at =
        let (_, lt) = subst (Within f) at s.within in
        let (q, of) = table i lt in
        let (n, _) = held_at (queued i) at of in
        elim (mutex-unlocked q.mutex) [
          | inl free ↦
              let (ts, on) =
                At-On lfq locks of (Add.add_lock {n = 0} (ground (arith, n)) free) refl in
              inl (_, Go.takes_lock at on, refl)
          | inr busy ↦ inr (waiting i q at of busy)
        ]

    entry-Own : (g : Threadfunc) → f ≡ g → b.place ≡ loop_top → Own
    entry-Own threadfunc2 e at = (_, Go.selects e at, refl)
    entry-Own threadfunc3 e at = (_, Go.enters e at, refl)

    moves : (p : Point) → b.place ≡ p → Own ⊎ Waits
    moves loop_top at = inl (entry-Own f refl at)
    moves chosen at = inl (chosen-Own at)
    moves full at = inl (full-Own at)
    moves (adding i) at = inl (adding-Own i at)
    moves (queued i) at = queued-Own i at
    moves (trying idx) at = inl (trying-Own idx at)
    moves (got_lock i) at = inl (got_lock-Own i at)
    moves (to_signal i) at = inl (to_signal-Own i at)
    moves (to_unlock i) at = inl (to_unlock-Own i at)
    moves timing at = inl (timed-Own at)
    moves left at = inl (_, Go.joins at, refl)

module _ (lh : ListHead) (lfq : Lfq) (f : Threadfunc) (mp : Pool.State lh.Links) (ts : ℕ)
    (pool : IsPool lh [] mp) (limit : mp.pool.max ≡ max_jobs) {b : Test lh lfq}
    (r : Goes lh lfq f (begin lh lfq mp ts) b) where
  -- In every state that the threads of a test reach, whatever the clock says and `malloc` answers, the
  -- writer, or the thread that joins it, can make a step; or the writer waits in `threadwq_add_job` for
  -- the mutex of its queue, which the worker of that queue gives back by its next step.
  pub Goes-moves :
      (answer : Option (ℕ × ℕ)) (now : ℕ)
      → IsFresh answer b.client.shared.mp.mem
      → Own lh lfq f b ⊎ Waits lh lfq f b
  Goes-moves answer now fresh =
      let s = Goes-Sound lh lfq (begin-Sound lh lfq f mp ts pool limit) r in
      moves lh lfq f b s answer fresh now b.place refl

  -- In every state that the threads of a test reach, `select_twq` is the index of a queue, and `twq_idx`
  -- of the manager at most one behind the last; `threadfunc2` is only in calls of `threadwq_add_job` and `threadfunc3` of `rr4idle_add_job`, each for
  -- a queue of the table; and the writer holds the mutex of a queue exactly between the lock and the
  -- unlock of its call for that queue, and of no other queue, and is counted as an adder there exactly
  -- between the enqueue and the lock.
  pub Goes-Held : AllMatch lfq b.place 0 b.client.twqs × Selected f b.select × Within f b.place
  Goes-Held =
      let s = Goes-Sound lh lfq (begin-Sound lh lfq f mp ts pool limit) r in
      (s.matches, s.selected, s.within)
