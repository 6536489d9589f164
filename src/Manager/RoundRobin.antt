-- ===== src/Manager/RoundRobin.antt =====
-- How `rr_add_job` of template-v1/src/threadwq/threadwq_man_rr.c shares jobs out.
use linux_c_template.Prelude.{
  ℕ, suc, zero, ◌+◌, ◌≤◌, ◌<◌, ◌≡◌, some, List, [], ◌∷◌, ◌++◌, arith, ap, ◌∙◌,
}
use linux_c_template.Prelude.Tests.{leb, ◌==◌, if◌then◌else◌}
use linux_c_template.Prelude.Lists.{length, get_elem?, set, length-append}
use linux_c_template.Prelude.Outcome.{Returns, returns, Returns-bind, Returns-mono}
use linux_c_template.Manager.{Man, rr_add_job, rr_add_all}
use linux_c_template.Manager.Bounds.{IsTable, Dealt, rr_add_job-Dealt}

-- The number of jobs that queue `i` was given.
abbrev pub load : ℕ → List (List ℕ) → ℕ
load i [] = 0
load zero (q ∷ qs) = length q
load (suc i) (q ∷ qs) = load i qs

load-set :
    (qs : List (List ℕ)) (i c job : ℕ) (q : List ℕ)
    → get_elem? qs c ≡ some q
    → load i (set qs c (q ++ job ∷ [])) ≡ (if i == c then 1 else 0) + load i qs
load-set [] i c job q e = cc
load-set (p ∷ qs) zero zero job q e = ground (arith, length-append {0} q (job ∷ []))
load-set (p ∷ qs) zero (suc c) job q e = ground arith
load-set (p ∷ qs) (suc i) zero job q e = ground arith
load-set (p ∷ qs) (suc i) (suc c) job q e = ground (arith, load-set qs i c job q e)

Dealt-load :
    {man man' : Man} {c job : ℕ} (i : ℕ)
    → Dealt man c job man'
    → load i man'.twq_pool ≡ (if i == c then 1 else 0) + load i man.twq_pool
Dealt-load {man} {man'} {c} {job} i d =
    ap (load i) d.pool ∙ load-set man.twq_pool i c job d.queue d.was

-- What is left of a round that stands at `idx`: queue 0 is still to be given one job, and so is each
-- queue from `idx` on.
pub record Round (man : Man) (idx : ℕ) (man' : Man) : Type 0 where
  pub rewound : man'.twq_idx ≡ 0
  pub loads :
      (i : ℕ)
      → i < man.twq_pool_nr
      → load i man'.twq_pool
        ≡ load i man.twq_pool + (if i == 0 then 1 else 0) + (if leb idx i then 1 else 0)

Round-last :
    (man : Man) (job : ℕ)
    → IsTable man
    → man.twq_idx ≡ man.twq_pool_nr
    → Returns (Round man man.twq_idx) (rr_add_job man job)
Round-last man job t e =
    Returns-mono (rr_add_job-Dealt man job t) λ m (d, at, _). record {
      rewound = ground arith;
      loads = λ i h. ground (arith, Dealt-load i d);
    }

Round-from :
    (js : List ℕ) (man : Man)
    → IsTable man
    → man.twq_idx ≤ man.twq_pool_nr
    → man.twq_idx + length js ≡ man.twq_pool_nr + 1
    → Returns (Round man man.twq_idx) (rr_add_all man js)
unfolding rr_add_all
Round-from [] man t le e = absurd (omega arith)
Round-from (j ∷ []) man t le e = Returns-bind (Round-last man j t (omega arith)) λ m r. returns r
Round-from (j ∷ k ∷ js) man t le e = Returns-bind (rr_add_job-Dealt man j t) λ m (d, at, t').
    Returns-mono (Round-from (k ∷ js) m t' (ground (arith, d.same_nr)) (ground (arith, d.same_nr)))
      λ m' r. record {
        rewound = r.rewound;
        loads = λ i h. ground (arith, Dealt-load i d, d.same_nr, r.loads i);
      }

-- With a table of `nr` queues, at least one and fewer than 2^32, and `twq_idx` 0, as `rr_init` leaves
-- it, a round of `nr + 1` jobs gives queue 0 two jobs and every other queue one, and `twq_idx` is 0 again.
pub rr_add_all-Round :
    (js : List ℕ) (man : Man)
    → IsTable man
    → man.twq_idx ≡ 0
    → length js ≡ man.twq_pool_nr + 1
    → Returns
        (λ m.
          (m.twq_idx ≡ 0)
          × ((i : ℕ)
              → i < man.twq_pool_nr
              → load i m.twq_pool ≡ load i man.twq_pool + (if i == 0 then 2 else 1)))
        (rr_add_all man js)
rr_add_all-Round js man t e n =
    Returns-mono (Round-from js man t (omega arith) (omega arith))
      λ m r. (r.rewound, λ i h. ground (arith, r.loads i))
