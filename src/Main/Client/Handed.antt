-- ===== src/Main/Client/Handed.antt =====
-- The writer's call of `mempool_alloc` in template-v1/src/main.c.
use linux_c_template.Prelude.{
  ℕ, ◌+◌, ◌%◌, ◌^◌, ◌<◌, ◌≡◌, inl, inr, refl, false, Option, none, some, List, ◌∷◌, arith, ◌∙◌,
}
use linux_c_template.Prelude.Tests.{◌==◌, if◌then◌else◌}
use linux_c_template.Prelude.Lists.{length, ◌∉◌, count}
use linux_c_template.Prelude.Outcome.{ok, Returns, returns, Returns-bind, Returns-with}
use linux_c_template.ListHead.{ListHead}
use linux_c_template.Mempool as Pool
use linux_c_template.Mempool.{null}
use linux_c_template.Mempool.Invariant.{IsFresh}
use linux_c_template.Mempool.Alloc.{Allocated, alloc-Allocated}
use linux_c_template.Mempool.Keeps.{alloc-max}
use linux_c_template.Lfq.{Lfq}
use linux_c_template.Main.Client.{max_jobs, Shared, alloc_job, writer_jobs, Client}
use linux_c_template.Main.Client.Owns.{Owns}

module _ (lh : ListHead) (lfq : Lfq) where
  -- What a call of `mempool_alloc` by the writer leaves.
  pub data Handed (live : List ℕ) (c : Client lh lfq) (sh : Shared lh.Links) : Type 0 where
    nothing : sh.job ≡ none → Owns lh lfq live (record c { shared = sh }) → Handed live c sh
    job :
        (p : ℕ)
        → sh.job ≡ some p
        → p ∉ live
        → Owns lh lfq (p ∷ live) (record c { shared = sh })
        → Handed live c sh

  pub allocates-Handed :
      {live : List ℕ} (c : Client lh lfq) (answer : Option (ℕ × ℕ))
      → Owns lh lfq live c
      → c.shared.job ≡ none
      → IsFresh answer c.shared.mp.mem
      → Returns (Handed live c) (alloc_job lh answer c.shared)
  unfolding alloc_job
  allocates-Handed {live} c answer o free fresh =
      Returns-bind (Returns-with (alloc-Allocated lh answer c.shared.mp o.pool fresh room))
        λ (p, mp) (a, e). go p mp (alloc-max lh answer c.shared.mp (p, mp) e ∙ o.limit) a
    where
      room : c.shared.mp.pool.ref + 1 < 2 ^ 64
      room = ground (arith, o.pool.owned.shape.capped, o.limit)

      writer : (x : ℕ) → count x (writer_jobs c.shared.job) ≡ 0
      writer x = rw free refl

      idle : length (writer_jobs c.shared.job) ≡ 0
      idle = rw free refl

      go :
          (p : ℕ) (mp : Pool.State lh.Links)
          → mp.pool.max ≡ max_jobs
          → Allocated lh live (p, mp)
          → Returns (Handed live c) (
              ok (
                if p == null then record c.shared { mp = mp } else record c.shared {
                  mp = mp;
                  accl = (c.shared.accl + 1) % 2 ^ 32;
                  job = some p;
                }))
      go p mp limit (inl (z, pool)) = rw z (
          returns (
            nothing free (record {
              pool = pool;
              limit = limit;
              same = o.same;
              sized = o.sized;
              tally = o.tally;
              expected = o.expected;
            })))
      go p mp limit (inr (ne, out, pool)) =
          let some_slice : (p == null) ≡ false = ground arith in
          rw some_slice (
            returns (
              job p refl out (record {
                pool = pool;
                limit = limit;
                same = λ x. omega (arith, o.same x, writer x);
                sized = omega (arith, o.sized, idle);
                tally = o.tally;
                expected = omega (arith, o.expected, idle);
              })))
