-- ===== src/Main/Writer/Examples.antt =====
-- The theorems on the writers of template-v1/src/main.c, at the runs of the sample.
use linux_c_template.Prelude.{◌+◌, ◌%◌, ◌^◌, ◌≤◌, ◌≡◌, ◌⊎◌, refl, true, none, some, [], ◌∷◌, arith}
use linux_c_template.Prelude.Tests.{is_some}
use linux_c_template.Prelude.Outcome.{ok, Returns, Returns-result}
use linux_c_template.ListHead as Links
use linux_c_template.Mempool as Pool
use linux_c_template.Mempool.{exit}
use linux_c_template.Mempool.Init.{init-IsPool}
use linux_c_template.Mempool.Invariant.{IsPool}
use linux_c_template.Lfq as Lfq
use linux_c_template.Main.Client.{static_mp, max_jobs, Turns}
use linux_c_template.Main.Client.Sample.{nothing_allocated, begun}
use linux_c_template.Main.Writer.{threadfunc3, left, is_late, begin}
use linux_c_template.Main.Writer.Sane.{begin-Turns}
use linux_c_template.Main.Writer.Steady.{has_job}
use linux_c_template.Main.Writer.Roles.{AllMatch}
use linux_c_template.Main.Writer.Held.{Selected, Within}
use linux_c_template.Main.Writer.Moves.{Own, Waits, Goes-moves, Goes-Held}
use linux_c_template.Main.Writer.Ends.{to_go, loop_steps, Goes-ends}
use linux_c_template.Main.Client.Clean.{callbacks, reported}
use linux_c_template.Main.Writer.Whole.{benchmarks-clean}
use linux_c_template.Manager.{rr4idle_add_job}
use linux_c_template.Main.Writer.Deals.{Goes-dealt}
use linux_c_template.Main.Writer.Along.{first_fail, manager}
use linux_c_template.Main.Writer.Sample.{
  entered, dealt_run, closed2, closed3, signalling, Run2, Run3, Signalling, leaving_run,
  leaving-from,
}

init-begun :
    Pool.init Links.sequence static_mp (some (110 ∷ [])) 64 max_jobs none none nothing_allocated
    ≡ ok begun.mp
unfolding Pool.init Pool.SliceSize.calc_slice_size
init-begun = refl

begun-IsPool : IsPool Links.sequence [] begun.mp
begun-IsPool =
    let (named, _, _, _) =
      init-IsPool Links.sequence 64 max_jobs none none nothing_allocated (omega arith) tt tt refl in
    let (pool, _, _, _) =
      Returns-result (named static_mp 110 [] λ h. absurd (omega arith)) init-begun in
    pool

begin-Turns_example :
    Turns Links.sequence Lfq.sequence
      (begin Links.sequence Lfq.sequence begun.mp 100).client
      closed3.client
    × (is_some closed3.client.shared.job ≡ has_job closed3.place)
    × (closed3.client.stopping ≡ true → closed3.place ≡ left)
begin-Turns_example = begin-Turns Links.sequence Lfq.sequence begun.mp 100 Run3

Goes-Held_example :
    AllMatch Lfq.sequence signalling.place 0 signalling.client.twqs
    × Selected threadfunc3 signalling.select
    × Within threadfunc3 signalling.place
Goes-Held_example =
    Goes-Held Links.sequence Lfq.sequence threadfunc3 begun.mp 100 begun-IsPool refl Signalling

Goes-moves_example :
    Own Links.sequence Lfq.sequence threadfunc3 signalling
    ⊎ Waits Links.sequence Lfq.sequence threadfunc3 signalling
Goes-moves_example =
    Goes-moves Links.sequence Lfq.sequence threadfunc3 begun.mp 100 begun-IsPool refl Signalling
      none 105 tt

is_late-111 : is_late 100 111 ≡ true
unfolding is_late
is_late-111 = refl

Goes-ends_example :
    (loop_steps Links.sequence Lfq.sequence leaving_run + to_go left ≤ to_go signalling.place)
    × (to_go signalling.place ≤ 7)
    × (loop_steps Links.sequence Lfq.sequence leaving_run ≡ to_go signalling.place → left ≡ left)
Goes-ends_example = Goes-ends Links.sequence Lfq.sequence 111 leaving_run is_late-111 leaving-from

benchmarks-clean_example :
    Returns
      (λ (leak, _).
        leak
        ≡ reported Links.sequence Lfq.sequence
            (callbacks Links.sequence Lfq.sequence closed3.client.twqs))
      (exit Links.sequence closed3.client.shared.mp)
    × (closed2.client.shared.cnt_start ≡ closed2.client.shared.cnt_finish % 2 ^ 64)
    × (closed3.client.shared.cnt_start
        ≡ (closed3.client.shared.cnt_finish
            + callbacks Links.sequence Lfq.sequence closed3.client.twqs)
          % 2 ^ 64)
    × (closed3.client.shared.accl ≡ closed3.client.shared.cnt_start % 2 ^ 32)
benchmarks-clean_example =
    benchmarks-clean Links.sequence Lfq.sequence 64 110 [] nothing_allocated (omega arith) refl
      init-begun
      (record { ts = 100; run = Run2; joined = refl; over = (refl, (refl, (refl, (refl, tt)))) })
      refl
      (record { ts = 100; run = Run3; joined = refl; over = (refl, (refl, (refl, (refl, tt)))) })

Goes-dealt_example :
    Returns
      (λ m. (m.twq_pool ≡ [] ∷ (32 ∷ []) ∷ [] ∷ [] ∷ []) × (m.twq_idx ≡ 2))
      (rr4idle_add_job (first_fail 1) 2 (manager Links.sequence Lfq.sequence entered) 32)
unfolding dealt_run
Goes-dealt_example =
    Goes-dealt Links.sequence Lfq.sequence entered 1 32 dealt_run (refl, (refl, (refl, (refl, tt))))
      refl refl refl refl
