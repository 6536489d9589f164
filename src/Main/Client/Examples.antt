-- ===== src/Main/Client/Examples.antt =====
-- The theorems on the jobs of template-v1/src/main.c, at a run with one job.
use linux_c_template.Prelude.{refl, false, [], ◌∷◌, arith}
use linux_c_template.Prelude.Outcome.{Returns}
use linux_c_template.ListHead as Links
use linux_c_template.Lfq as Lfq
use linux_c_template.Threadwq.{grace}
use linux_c_template.Threadwq.Jobs.{finished}
use linux_c_template.Main.Client.{cb_finish, One, first, IsHeld}
use linux_c_template.Main.Client.Safe.{cb_finish-freed}
use linux_c_template.Main.Client.Sample.{
  nothing_allocated, start-begun, handed, others, working, begins-Turns,
}

-- RCU finishes the job.
finishing :
    One Lfq.sequence false working.twqs
      (finished 32)
      (record handed { pending = []; finished = 32 ∷ [] } ∷ others)
finishing = first (grace 32 refl) refl (λ h. cc)

cb_finish-freed_example :
    Returns
      (λ sh'. ¬ IsHeld Links.sequence Lfq.sequence 32 (record {
        shared = sh';
        stopping = false;
        twqs = record handed { pending = []; finished = 32 ∷ [] } ∷ others;
      }))
      (cb_finish Links.sequence 32 working.shared)
cb_finish-freed_example =
    cb_finish-freed Links.sequence Lfq.sequence 64 (omega arith) 110 [] nothing_allocated refl
      start-begun begins-Turns 32 (record handed { pending = []; finished = 32 ∷ [] } ∷ others)
      finishing
