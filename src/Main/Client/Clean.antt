-- ===== src/Main/Client/Clean.antt =====
-- What is left of the jobs of template-v1/src/main.c when all work queues have been shut down.
use linux_c_template.Prelude.{
  ap, ℕ, ◌%◌, ◌^◌, ◌≡◌, refl, Bool, none, subst, Option, some, zero, suc, ◌+◌, List, [], ◌∷◌, arith,
  ◌∙◌,
}
use linux_c_template.Prelude.Tests.{◌==◌, if◌then◌else◌}
use linux_c_template.Prelude.Lists.{length}
use linux_c_template.Prelude.Outcome.{Returns, Returns-mono}
use linux_c_template.ListHead.{ListHead}
use linux_c_template.Mempool.{exit}
use linux_c_template.Lfq.{Lfq}
use linux_c_template.Threadwq.{System, joined, done}
use linux_c_template.Threadwq.Delivery.{exit-joined}
use linux_c_template.Threadwq.Jobs.{jobs}
use linux_c_template.Main.Client.{
  max_jobs, Client, Turn, allocates, waits, adds, turns, starts, finishes, stops, writes, Turns,
  at_start, further, writer_jobs,
}
use linux_c_template.Main.Client.Holdings.{waiting, unfinished, total}
use linux_c_template.Main.Client.Queues.{Queues, One-Queues, stops-Queues}
use linux_c_template.Main.Client.Owns.{Owns}
use linux_c_template.Mempool.Invariant.{IsPool}
use linux_c_template.Mempool.Recycle.{exit-leak}

module _ (lh : ListHead) (lfq : Lfq) where
  Turn-Queues :
      {c d : Client lh lfq}
      → Queues lfq c.stopping c.twqs
      → Turn lh lfq c d
      → Queues lfq d.stopping d.twqs
  Turn-Queues qs (allocates answer _ free fresh e) = qs
  Turn-Queues qs (waits _ free) = qs
  Turn-Queues qs (adds still e step) = One-Queues lfq (λ h. still) step qs
  Turn-Queues qs (turns step) = One-Queues lfq (λ h. cc h) step qs
  Turn-Queues qs (starts step) = One-Queues lfq (λ h. cc h) step qs
  Turn-Queues qs (finishes step e) = One-Queues lfq (λ h. cc h) step qs
  Turn-Queues {c} qs (stops e) = stops-Queues lfq c.stopping c.twqs qs
  Turn-Queues qs (writes p mem' h own) = qs

  pub Turns-Queues :
      {c d : Client lh lfq}
      → Queues lfq c.stopping c.twqs
      → Turns lh lfq c d
      → Queues lfq d.stopping d.twqs
  Turns-Queues qs at_start = qs
  Turns-Queues qs (further r t) = Turn-Queues (Turns-Queues qs r) t

  -- `threadwq_exit` has returned for each queue.
  abbrev pub AreOver : List (System lfq.Queue) → Type 0
  AreOver [] = Unit
  AreOver (s ∷ ss) = (s.killer ≡ joined) × AreOver ss

  -- The number of callbacks that RCU has still to run.
  abbrev pub callbacks : List (System lfq.Queue) → ℕ
  callbacks [] = 0
  callbacks (s ∷ ss) = length s.pending + callbacks ss

  over-total :
      (stopping : Bool) (ss : List (System lfq.Queue))
      → Queues lfq stopping ss
      → AreOver ss
      → (total lfq waiting ss ≡ 0) × (total lfq unfinished ss ≡ callbacks ss)
  over-total stopping [] qs o = (refl, refl)
  over-total stopping (s ∷ ss) (q, qs) (ended, o) =
      let (w, u) = over-total stopping ss qs o in
      let at : s.pc ≡ done = (exit-joined lfq q.reached ended).0 in
      let empty : lfq.contents s.queue ≡ [] = q.drained (rw at refl) in
      let none_wait : waiting (jobs lfq s) ≡ 0 = rw (at, empty) refl in
      let handed : unfinished (jobs lfq s) ≡ length s.pending = rw at refl in
      (omega arith, omega arith)

  -- What a test leaves: a slice in use for each callback that RCU has still to run, and the counters.
  pub record Ended (c : Client lh lfq) : Type 0 where
    pub live : List ℕ
    pub pool : IsPool lh live c.shared.mp
    pub sized : length live ≡ callbacks c.twqs
    pub limit : c.shared.mp.pool.max ≡ max_jobs
    pub tally : c.shared.cnt_start ≡ (c.shared.cnt_finish + callbacks c.twqs) % 2 ^ 64
    pub expected : c.shared.accl ≡ c.shared.cnt_start % 2 ^ 32

  length-nil : (xs : List ℕ) → length xs ≡ 0 → xs ≡ []
  length-nil [] e = refl
  length-nil (x ∷ xs) e = absurd (omega arith)

  pub over-Ended :
      {live : List ℕ} (c : Client lh lfq)
      → Owns lh lfq live c
      → Queues lfq c.stopping c.twqs
      → AreOver c.twqs
      → c.shared.job ≡ none
      → Ended c
  over-Ended {live} c o qs over idle =
      let (w, u) = over-total c.stopping c.twqs qs over in
      let held : length (writer_jobs c.shared.job) ≡ 0 = rw idle refl in
      record {
        live = live;
        pool = o.pool;
        sized = omega (arith, o.sized);
        limit = o.limit;
        tally = o.tally ∙ rw u refl;
        expected = o.expected ∙ rw (held, w) (omega arith);
      }

  -- What `mempool_exit` reports when so many jobs are not given back.
  abbrev pub reported : ℕ → Option ℕ
  reported zero = none
  reported (suc n) = some (suc n)

  pub Ended-exit :
      {c : Client lh lfq}
      → Ended c
      → Returns (λ (leak, _). leak ≡ reported (callbacks c.twqs)) (exit lh c.shared.mp)
  Ended-exit {c} e =
      Returns-mono (exit-leak lh c.shared.mp e.pool)
        λ (leak, _) (_, left). left ∙ told (length e.live) ∙ ap reported e.sized
    where
      told : (n : ℕ) → (if n == 0 then none else some n) ≡ reported n
      told zero = ground arith
      told (suc n) = ground arith

  -- Every callback has been run, so that no slice is in use.
  pub Ended-pool : {c : Client lh lfq} → Ended c → callbacks c.twqs ≡ 0 → IsPool lh [] c.shared.mp
  Ended-pool {c} e h =
      subst (λ xs. IsPool lh xs c.shared.mp) (length-nil e.live (omega (arith, e.sized))) e.pool
