-- ===== src/Main/Client/Owns.antt =====
-- What each step of template-v1/src/main.c's writer, work queues and RCU does to the slices of the pool
-- that are in use.
use linux_c_template.Prelude.{
  true, ℕ, ◌+◌, ◌%◌, ◌^◌, ◌≡◌, ◌≢◌, inl, inr, refl, none, some, List, [], ◌∷◌, arith, ap, ◌∙◌,
}
use linux_c_template.Prelude.Lists.{
  length, ◌∈◌, remove, length-remove, count, count-mem, count-remove, mem-count,
}
use linux_c_template.Prelude.Outcome.{Returns, returns, Returns-bind, Returns-with}
use linux_c_template.ListHead.{ListHead}
use linux_c_template.Mempool as Pool
use linux_c_template.Mempool.{null}
use linux_c_template.Mempool.Shape.{OwnBlock, Shape-OwnBlock}
use linux_c_template.Mempool.Invariant.{IsPool}
use linux_c_template.Mempool.Free.{free-Freed}
use linux_c_template.Mempool.Keeps.{free-max}
use linux_c_template.Lfq.{Lfq}
use linux_c_template.Threadwq.{System}
use linux_c_template.Threadwq.Jobs.{quiet, added, started, finished, jobs}
use linux_c_template.Main.Client.{
  max_jobs, count_wait, cb_start, cb_finish, One, Any, among, later, writer_jobs, Client, IsHeld,
}
use linux_c_template.Main.Client.Holdings.{
  held, waiting, unfinished, total, One-held, One-waiting, One-unfinished,
}

module _ (lh : ListHead) (lfq : Lfq) where
  -- The slices in use are the jobs of the writer and of the queues, each once.
  pub record Owns (live : List ℕ) (c : Client lh lfq) : Type 0 where
    pub pool : IsPool lh live c.shared.mp
    pub limit : c.shared.mp.pool.max ≡ max_jobs
    pub same :
        (x : ℕ) → count x live ≡ count x (writer_jobs c.shared.job) + total lfq (held x) c.twqs
    pub sized :
        length live
        ≡ length (writer_jobs c.shared.job) + total lfq waiting c.twqs + total lfq unfinished c.twqs
    pub tally : c.shared.cnt_start ≡ (c.shared.cnt_finish + total lfq unfinished c.twqs) % 2 ^ 64
    pub expected :
        c.shared.accl
        ≡ (c.shared.cnt_start + total lfq waiting c.twqs + length (writer_jobs c.shared.job))
          % 2 ^ 32

  Any-total : (p : ℕ) (ss : List (System lfq.Queue)) → Any lfq p ss → total lfq (held p) ss ≢ 0
  Any-total p [] a = elim a [ ]
  Any-total p (s ∷ ss) (among (inl i)) = let m = mem-count p (jobs lfq s).waiting i in ground arith
  Any-total p (s ∷ ss) (among (inr i)) =
      let m = mem-count p (jobs lfq s).unfinished i in ground arith
  Any-total p (s ∷ ss) (later a) = let m = Any-total p ss a in ground arith

  pub IsHeld-mem :
      {live : List ℕ} (p : ℕ) (c : Client lh lfq) → Owns live c → IsHeld lh lfq p c → p ∈ live
  IsHeld-mem {live} p c o (inl i) =
      let m = mem-count p (writer_jobs c.shared.job) i in
      count-mem p live (λ z. ground (arith, o.same p))
  IsHeld-mem {live} p c o (inr a) =
      let m = Any-total p c.twqs a in count-mem p live (λ z. ground (arith, o.same p))

  -- A step that keeps to one queue.
  pub turns-Owns :
      {live : List ℕ} (c : Client lh lfq) (ts : List (System lfq.Queue))
      → Owns live c
      → One lfq c.stopping c.twqs quiet ts
      → Owns live (record c { twqs = ts })
  turns-Owns c ts o step =
      let w = One-waiting lfq step in
      let u = One-unfinished lfq step in
      record {
        pool = o.pool;
        limit = o.limit;
        same = λ x. omega (arith, One-held lfq x step, o.same x);
        sized = omega (arith, o.sized);
        tally = o.tally ∙ ap (λ n. (c.shared.cnt_finish + n) % 2 ^ 64) (omega arith);
        expected =
            o.expected
            ∙ ap (λ n. (c.shared.cnt_start + n + length (writer_jobs c.shared.job)) % 2 ^ 32)
                (omega arith);
      }

  pub adds-Owns :
      {live : List ℕ} (c : Client lh lfq) (j : ℕ) (ts : List (System lfq.Queue))
      → Owns live c
      → c.shared.job ≡ some j
      → One lfq c.stopping c.twqs (added j) ts
      → Owns live (record c { shared = record c.shared { job = none }; twqs = ts })
  adds-Owns {live} c j ts o e step =
      let w = One-waiting lfq step in
      let u = One-unfinished lfq step in
      let mine : length (writer_jobs c.shared.job) ≡ 1 = rw e refl in
      record {
        pool = o.pool;
        limit = o.limit;
        same =
            λ x. omega (arith, One-held lfq x step, o.same x, ap (λ b. count x (writer_jobs b)) e);
        sized = omega (arith, o.sized);
        tally = o.tally ∙ ap (λ n. (c.shared.cnt_finish + n) % 2 ^ 64) (omega arith);
        expected = o.expected ∙ ap (λ n. n % 2 ^ 32) (omega arith);
      }

  pub starts-Owns :
      {live : List ℕ} (c : Client lh lfq) (j : ℕ) (ts : List (System lfq.Queue))
      → Owns live c
      → One lfq c.stopping c.twqs (started j) ts
      → Owns live (record c { shared = cb_start c.shared; twqs = ts })
  unfolding cb_start
  starts-Owns {live} c j ts o step =
      let w = One-waiting lfq step in
      let u = One-unfinished lfq step in
      record {
        pool = o.pool;
        limit = o.limit;
        same = λ x. omega (arith, One-held lfq x step, o.same x);
        sized = omega (arith, o.sized);
        tally = omega (arith, o.tally);
        expected = omega (arith, o.expected);
      }

  pub finishes-Owns :
      {live : List ℕ} (c : Client lh lfq) (j : ℕ) (ts : List (System lfq.Queue))
      → Owns live c
      → One lfq c.stopping c.twqs (finished j) ts
      → Returns
          (λ sh. Owns (remove j live) (record c { shared = sh; twqs = ts }))
          (cb_finish lh j c.shared)
  unfolding cb_finish
  finishes-Owns {live} c j ts o step =
      let i : j ∈ live = count-mem j live (λ z. ground (arith, o.same j, One-held lfq j step)) in
      let w = One-waiting lfq step in
      let u = One-unfinished lfq step in
      Returns-bind (Returns-with (free-Freed lh c.shared.mp j o.pool.owned o.pool.unlocked i))
        λ mp (f, e). returns (record {
          pool = f.pool;
          limit = free-max lh j c.shared.mp mp e ∙ o.limit;
          same = λ x. ground (arith, One-held lfq x step, o.same x, count-remove j x live i);
          sized = omega (arith, o.sized, length-remove j live i);
          tally = omega (arith, o.tally);
          expected = omega (arith, o.expected);
        })

  pub waits-Owns :
      {live : List ℕ} (c : Client lh lfq)
      → Owns live c
      → Owns live (record c { shared = count_wait c.shared })
  unfolding count_wait
  waits-Owns c o = record {
    pool = o.pool;
    limit = o.limit;
    same = o.same;
    sized = o.sized;
    tally = o.tally;
    expected = o.expected;
  }

  pub stops-Owns :
      {live : List ℕ} (c : Client lh lfq) → Owns live c → Owns live (record c { stopping = true })
  stops-Owns c o = record {
    pool = o.pool;
    limit = o.limit;
    same = o.same;
    sized = o.sized;
    tally = o.tally;
    expected = o.expected;
  }

  pub writes-Owns :
      {live : List ℕ} (c : Client lh lfq) (p : ℕ) (mem' : Pool.Memory)
      → Owns live c
      → IsHeld lh lfq p c
      → OwnBlock p c.shared.mp.mem mem'
      → Owns live (record c { shared = record c.shared { mp = record c.shared.mp { mem = mem' } } })
  writes-Owns c p mem' o h own = record {
    pool = record {
      owned = record {
        shape = Shape-OwnBlock o.pool.owned.shape p (IsHeld-mem p c o h) own;
        ctor_own = o.pool.owned.ctor_own;
        dtor_own = o.pool.owned.dtor_own;
      };
      unlocked = o.pool.unlocked;
    };
    limit = o.limit;
    same = o.same;
    sized = o.sized;
    tally = o.tally;
    expected = o.expected;
  }
