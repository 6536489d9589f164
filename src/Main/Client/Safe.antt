-- ===== src/Main/Client/Safe.antt =====
-- The jobs of template-v1/src/main.c and the slices of its pool in use are the same, so `cb_finish`
-- never frees a slice twice, and `mempool_exit` reports the jobs that are not finished.
use linux_c_template.Prelude.{
  false, ℕ, ◌+◌, ◌-◌, ◌%◌, ◌^◌, ◌≤◌, ◌≡◌, ◌⊎◌, inl, inr, refl, Option, none, some, List, [], ◌∷◌,
  arith, ◌∙◌,
}
use linux_c_template.Prelude.Tests.{◌==◌, if◌then◌else◌}
use linux_c_template.Prelude.Lists.{length, remove, not-mem-remove_self}
use linux_c_template.Prelude.Outcome.{
  ok, Returns, returns, Returns-bind, Returns-mono, Returns-result,
}
use linux_c_template.ListHead.{ListHead}
use linux_c_template.Mempool as Pool
use linux_c_template.Mempool.{Memory, null, exit}
use linux_c_template.Mempool.Invariant.{IsFresh, IsPool}
use linux_c_template.Mempool.Init.{init-IsPool}
use linux_c_template.Mempool.Recycle.{exit-leak}
use linux_c_template.Lfq.{Lfq}
use linux_c_template.Threadwq.{System}
use linux_c_template.Threadwq.Jobs.{finished}
use linux_c_template.Main.Client.{
  static_mp, max_jobs, Shared, new_test, cb_finish, alloc_job, start, One, writer_jobs, Client,
  IsHeld, Turn, allocates, waits, adds, turns, starts, finishes, stops, writes, Turns, at_start,
  further, init_multi,
}
use linux_c_template.Main.Client.Holdings.{held, waiting, unfinished, total, total-init_multi}
use linux_c_template.Main.Client.Owns.{
  Owns, IsHeld-mem, turns-Owns, adds-Owns, starts-Owns, finishes-Owns, writes-Owns, stops-Owns,
  waits-Owns,
}
use linux_c_template.Main.Client.Handed.{Handed, nothing, job, allocates-Handed}

module _ (lh : ListHead) (lfq : Lfq) where
  abbrev pub Owned : Client lh lfq → Type 0
  Owned c = (live : List ℕ) × Owns lh lfq live c

  Handed-Owned :
      {live : List ℕ} (c : Client lh lfq) (sh : Shared lh.Links)
      → Handed lh lfq live c sh
      → Owned (record c { shared = sh })
  Handed-Owned {live} c sh (nothing e o) = (live, o)
  Handed-Owned {live} c sh (job p e out o) = (p ∷ live, o)

  Turn-Owned : {c d : Client lh lfq} → Owned c → Turn lh lfq c d → Owned d
  Turn-Owned {c} (live, o) (allocates answer {sh} _ free fresh e) =
      Handed-Owned c sh (Returns-result (allocates-Handed lh lfq c answer o free fresh) e)
  Turn-Owned {c} (live, o) (waits _ free) = (live, waits-Owns lh lfq c o)
  Turn-Owned {c} (live, o) (adds {j} {twqs' = ts} _ e step) =
      (live, adds-Owns lh lfq c j ts o e step)
  Turn-Owned {c} (live, o) (turns {twqs' = ts} step) = (live, turns-Owns lh lfq c ts o step)
  Turn-Owned {c} (live, o) (starts {j} {twqs' = ts} step) = (live, starts-Owns lh lfq c j ts o step)
  Turn-Owned {c} (live, o) (finishes {j} {twqs' = ts} step e) =
      (remove j live, Returns-result (finishes-Owns lh lfq c j ts o step) e)
  Turn-Owned {c} (live, o) (stops e) = (live, stops-Owns lh lfq c o)
  Turn-Owned {c} (live, o) (writes p mem' h own) = (live, writes-Owns lh lfq c p mem' o h own)

  pub Turns-Owned : {c d : Client lh lfq} → Owned c → Turns lh lfq c d → Owned d
  Turns-Owned o at_start = o
  Turns-Owned o (further r st) = Turn-Owned (Turns-Owned o r) st

  -- A test begins with a pool of which no slice is in use.
  pub new_test-Owns :
      (mp : Pool.State lh.Links)
      → IsPool lh [] mp
      → mp.pool.max ≡ max_jobs
      → Owns lh lfq [] (record { shared = new_test mp; stopping = false; twqs = init_multi lfq })
  unfolding new_test
  new_test-Owns mp pool limit = record {
    pool = pool;
    limit = limit;
    same = λ x. ground (arith, total-init_multi lfq (held x) refl);
    sized = ground (arith, total-init_multi lfq waiting refl, total-init_multi lfq unfinished refl);
    tally = ground (arith, total-init_multi lfq unfinished refl);
    expected = ground (arith, total-init_multi lfq waiting refl);
  }

module _ (lh : ListHead) (lfq : Lfq) (size : ℕ) (small : size ≤ 2 ^ 32 - 8) (letter : ℕ)
    (name : List ℕ) (mem : Memory) (no_null : mem null ≡ none) where
  -- The client when a test begins.
  abbrev pub begins : Shared lh.Links → Client lh lfq
  begins sh = record { shared = sh; stopping = false; twqs = init_multi lfq }

  start-Owns : Returns (λ sh. Owns lh lfq [] (begins sh)) (start lh size (letter ∷ name) mem)
  unfolding start
  start-Owns =
      let (named, _, _, _) = init-IsPool lh size max_jobs none none mem small tt tt no_null in
      Returns-bind (named static_mp letter name λ h. absurd (omega arith))
        λ mp (pool, _, limit, _). returns (new_test-Owns lh lfq mp pool limit)

  module _ {sh : Shared lh.Links} {c : Client lh lfq}
      (begun : start lh size (letter ∷ name) mem ≡ ok sh) (r : Turns lh lfq (begins sh) c) where
    pub reached-Owned : Owned lh lfq c
    reached-Owned = Turns-Owned lh lfq ([], Returns-result start-Owns begun) r

    -- For jobs of at most 2^32 - 8 bytes, whenever RCU runs `cb_finish` on a job, in whatever order the
    -- writer, the queues and RCU have run before, `mempool_free` returns: the job is a slice in use, freed for the first time since it was
    -- allocated. Afterwards neither the writer nor a queue has that job.
    pub cb_finish-freed :
        (j : ℕ) (ts : List (System lfq.Queue))
        → One lfq c.stopping c.twqs (finished j) ts
        → Returns
            (λ sh'. ¬ IsHeld lh lfq j (record c { shared = sh'; twqs = ts }))
            (cb_finish lh j c.shared)
    cb_finish-freed j ts step =
        let (live, o) = reached-Owned in
        Returns-mono (finishes-Owns lh lfq c j ts o step) λ sh' o' h. cc (
          IsHeld-mem lh lfq j (record c { shared = sh'; twqs = ts }) o' h,
          not-mem-remove_self j live o.pool.owned.shape.apart,
        )

    -- An idle writer's `mempool_alloc` returns, when `malloc` gives a new block or fails. The job that it
    -- gives, if it gives one, is one that no queue has.
    pub alloc_job-new :
        (answer : Option (ℕ × ℕ))
        → c.shared.job ≡ none
        → IsFresh answer c.shared.mp.mem
        → Returns
            (λ sh'. (sh'.job ≡ none) ⊎ ((p : ℕ) × (sh'.job ≡ some p) × (¬ IsHeld lh lfq p c)))
            (alloc_job lh answer c.shared)
    alloc_job-new answer free fresh =
        let (live, o) = reached-Owned in
        Returns-mono (allocates-Handed lh lfq c answer o free fresh)
          λ sh' handed. new sh' live o handed
      where
        new :
            (sh' : Shared lh.Links) (live : List ℕ)
            → Owns lh lfq live c
            → Handed lh lfq live c sh'
            → (sh'.job ≡ none) ⊎ ((p : ℕ) × (sh'.job ≡ some p) × (¬ IsHeld lh lfq p c))
        new sh' live o (nothing e _) = inl e
        new sh' live o (job p e out _) = inr (p, e, λ h. cc (IsHeld-mem lh lfq p c o h, out))

    -- For jobs of at most 2^32 - 8 bytes, `mempool_exit` would at any time return and report as leaked
    -- the jobs that the writer has, that wait in a queue and that are started and not finished, and none
    -- when there is no such job.
    pub exit_unfinished :
        Returns
          (λ (leak, _).
            let left =
              length (writer_jobs c.shared.job)
              + total lfq waiting c.twqs
              + total lfq unfinished c.twqs in
            leak ≡ (if left == 0 then none else some left))
          (exit lh c.shared.mp)
    exit_unfinished =
        let (live, o) = reached-Owned in
        Returns-mono (exit-leak lh c.shared.mp o.pool) λ (leak, _) (_, e). e ∙ rw o.sized refl

    -- `cnt_start` is `cnt_finish` and the jobs that are started and not finished, modulo 2^64. What the
    -- writer of `threadfunc3` prints as expected is `cnt_start`, the jobs that wait and the one that the
    -- writer has, modulo 2^32.
    pub counters_lem :
        (c.shared.cnt_start ≡ (c.shared.cnt_finish + total lfq unfinished c.twqs) % 2 ^ 64)
        × (c.shared.accl
            ≡ (c.shared.cnt_start + total lfq waiting c.twqs + length (writer_jobs c.shared.job))
              % 2 ^ 32)
    counters_lem = let (_, o) = reached-Owned in (o.tally, o.expected)
