-- ===== src/Main/Writer/Whole.antt =====
-- `test_threadwq2` and `test_threadwq3` of template-v1/src/main.c, one after the other on one pool, from
-- `mempool_init` to `mempool_exit` in `main`.
use linux_c_template.Prelude.{
  ℕ, ◌+◌, ◌-◌, ◌%◌, ◌^◌, ◌≤◌, ◌≡◌, true, none, some, List, [], ◌∷◌, arith, ap, ◌∙◌,
}
use linux_c_template.Prelude.Outcome.{ok, Returns, Returns-result}
use linux_c_template.ListHead.{ListHead}
use linux_c_template.Mempool as Pool
use linux_c_template.Mempool.{Memory, null, exit}
use linux_c_template.Mempool.Init.{init-IsPool}
use linux_c_template.Mempool.Invariant.{IsPool}
use linux_c_template.Lfq.{Lfq}
use linux_c_template.Main.Client.{static_mp, max_jobs, new_test}
use linux_c_template.Main.Client.Queues.{init_multi-Queues}
use linux_c_template.Main.Client.Safe.{new_test-Owns, Turns-Owned}
use linux_c_template.Main.Client.Clean.{
  AreOver, callbacks, reported, Ended-pool, Turns-Queues, Ended, over-Ended, Ended-exit,
}
use linux_c_template.Main.Writer.{Threadfunc, threadfunc2, threadfunc3, Test, Goes, begin}
use linux_c_template.Main.Writer.Sane.{begin-Turns, no_job, begin-Steady, Goes-Steady}
use linux_c_template.Main.Writer.Steady.{has_job, Steady}

module _ (lh : ListHead) (lfq : Lfq) where
  -- A whole call of `test_threadwq2` or `test_threadwq3`: the writer has been joined and
  -- `threadwq_exit_multi` has returned. Callbacks of RCU may still be to run, since
  -- `free_all_cpu_call_rcu_data` hands those on that its threads have not run.
  pub record Ran (f : Threadfunc) (mp : Pool.State lh.Links) (b : Test lh lfq) : Type 0 where
    pub ts : ℕ
    pub run : Goes lh lfq f (begin lh lfq mp ts) b
    pub joined : b.client.stopping ≡ true
    pub over : AreOver lh lfq b.client.twqs

  Ran-Ended :
      {f : Threadfunc} {mp : Pool.State lh.Links} {b : Test lh lfq}
      → IsPool lh [] mp
      → mp.pool.max ≡ max_jobs
      → Ran f mp b
      → Ended lh lfq b.client
  unfolding begin new_test
  Ran-Ended {f} {mp} {b} pool limit r =
      let s : Steady lh lfq b = Goes-Steady lh lfq (begin-Steady lh lfq mp r.ts) r.run in
      let (turns, _, _) = begin-Turns lh lfq mp r.ts r.run in
      let (live, o) = Turns-Owned lh lfq ([], new_test-Owns lh lfq mp pool limit) turns in
      let qs = Turns-Queues lh lfq (init_multi-Queues lfq) turns in
      over-Ended lh lfq b.client o qs r.over (no_job lh lfq s (ap has_job (s.working r.joined)))

  -- For jobs of at most 2^32 - 8 bytes: `mempool_init` has returned, `test_threadwq2` has run, and then
  -- `test_threadwq3`, with the threads of each interleaved in any order, and RCU has run all callbacks of
  -- the first test before the second sets the counters to 0. Then `mempool_exit` returns, and reports as a
  -- leak exactly as many jobs as RCU has callbacks of the second test still to run, and none when it has
  -- run them all. `cnt_start` is `cnt_finish` in the first test, and in the second `cnt_finish` with the
  -- number of these callbacks, modulo 2^64. The number of jobs that `threadfunc3` expects is `cnt_start`
  -- modulo 2^32.
  pub benchmarks-clean :
      (size : ℕ) (letter : ℕ) (name : List ℕ) (mem : Memory)
      → size ≤ 2 ^ 32 - 8
      → mem null ≡ none
      → {mp : Pool.State lh.Links} {b c : Test lh lfq}
      → Pool.init lh static_mp (some (letter ∷ name)) size max_jobs none none mem ≡ ok mp
      → Ran threadfunc2 mp b
      → callbacks lh lfq b.client.twqs ≡ 0
      → Ran threadfunc3 b.client.shared.mp c
      → Returns
          (λ (leak, _). leak ≡ reported lh lfq (callbacks lh lfq c.client.twqs))
          (exit lh c.client.shared.mp)
        × (b.client.shared.cnt_start ≡ b.client.shared.cnt_finish % 2 ^ 64)
        × (c.client.shared.cnt_start
            ≡ (c.client.shared.cnt_finish + callbacks lh lfq c.client.twqs) % 2 ^ 64)
        × (c.client.shared.accl ≡ c.client.shared.cnt_start % 2 ^ 32)
  benchmarks-clean size letter name mem small no_null {mp} begun second handed third =
      let (named, _, _, _) = init-IsPool lh size max_jobs none none mem small tt tt no_null in
      let (pool, _, limit, _) =
        Returns-result (named static_mp letter name λ h. absurd (omega arith)) begun in
      let e = Ran-Ended pool limit second in
      let f = Ran-Ended (Ended-pool lh lfq e handed) e.limit third in
      (Ended-exit lh lfq f, e.tally ∙ omega (arith, handed), f.tally, f.expected)
