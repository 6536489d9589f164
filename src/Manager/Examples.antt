-- ===== src/Manager/Examples.antt =====
-- The theorems on template-v1/src/threadwq/threadwq_man_rr.c at small tables.
use linux_c_template.Prelude.{ℕ, ◌+◌, ◌^◌, ◌<◌, ◌≡◌, refl, Bool, [], ◌∷◌, arith}
use linux_c_template.Prelude.Tests.{◌==◌, if◌then◌else◌, ltb}
use linux_c_template.Prelude.Outcome.{Returns}
use linux_c_template.Manager.{Man, rr, rr_add_all, rr4idle_add_job}
use linux_c_template.Manager.Bounds.{IsTable}
use linux_c_template.Manager.RoundRobin.{load, rr_add_all-Round}
use linux_c_template.Manager.Threads.{
  outside, using, reads, counts, first, beyond, Races, at_start, further, AllUse, Limit,
  Races-Limit,
}
use linux_c_template.Prelude.Lists.{replicate}
use linux_c_template.Manager.Idle.{Settled, rr4idle_add_job-Settled}

abbrev two_queues : Man
two_queues = record { twq_pool = [] ∷ (9 ∷ []) ∷ []; twq_pool_nr = 2; ops = rr; twq_idx = 0 }

two_queues-IsTable : IsTable two_queues
two_queues-IsTable = record { sized = refl; nonempty = omega arith; word = omega arith }

rr_add_all-Round_example :
    Returns
      (λ m.
        (m.twq_idx ≡ 0)
        × ((i : ℕ)
            → i < 2
            → load i m.twq_pool ≡ load i two_queues.twq_pool + (if i == 0 then 2 else 1)))
      (rr_add_all two_queues (4 ∷ 5 ∷ 6 ∷ []))
rr_add_all-Round_example = rr_add_all-Round (4 ∷ 5 ∷ 6 ∷ []) two_queues two_queues-IsTable refl refl

-- The first two attempts find the mutex held.
abbrev busy_twice : ℕ → ℕ → Bool
busy_twice n i = ltb n 2

rr4idle_add_job-Settled_example :
    Returns (Settled busy_twice 0 0 two_queues 5) (rr4idle_add_job busy_twice 3 two_queues 5)
rr4idle_add_job-Settled_example =
    rr4idle_add_job-Settled busy_twice 5 two_queues two_queues-IsTable 2 3 (omega arith) refl

-- Two threads read the last index before either counts it up, so it gets behind the table by two.
racing : Races rr 1 0 (replicate 2 outside) 2 (using 0 ∷ using 0 ∷ [])
racing =
    further
      (further (further (further at_start (first reads)) (beyond (first reads)))
        (first (counts refl (omega arith))))
      (beyond (first (counts refl (omega arith))))

Races-Limit_example : AllUse 1 (using 0 ∷ using 0 ∷ []) × Limit rr 1 2 2 × (2 < 2 ^ 32)
Races-Limit_example = Races-Limit rr 1 2 (omega arith) (omega arith) (omega arith) racing
