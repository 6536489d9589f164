-- ===== src/Manager/Bounds.antt =====
-- The manager of template-v1/src/threadwq/threadwq_man_rr.c stays inside its table.
use linux_c_template.Prelude.{
  ℕ, ◌+◌, ◌%◌, ◌^◌, ◌<◌, ◌≡◌, refl, inl, inr, some, none, Option, false, List, [], ◌∷◌, ◌++◌, arith,
  ap, sym, ◌∙◌,
}
use linux_c_template.Prelude.Tests.{leb, ◌==◌, if◌then◌else◌, Bool-cases}
use linux_c_template.Prelude.Lists.{length, get_elem?, set, get_elem?-some, length-set}
use linux_c_template.Prelude.Outcome.{Returns, returns, aborted, Returns-mono}
use linux_c_template.Manager.{Man, Ops, add_to, rr_add_job, rr_init, man_init}

-- The table is as long as the manager was told, and not empty.
pub record IsTable (man : Man) : Type 0 where
  pub sized : length man.twq_pool ≡ man.twq_pool_nr
  pub nonempty : 0 < man.twq_pool_nr
  pub word : man.twq_pool_nr < 2 ^ 32

-- Job `job` went to the end of queue `c`, and nowhere else.
pub record Dealt (man : Man) (c job : ℕ) (man' : Man) : Type 0 where
  pub queue : List ℕ
  pub was : get_elem? man.twq_pool c ≡ some queue
  pub pool : man'.twq_pool ≡ set man.twq_pool c (queue ++ job ∷ [])
  pub same_nr : man'.twq_pool_nr ≡ man.twq_pool_nr
  pub same_ops : man'.ops ≡ man.ops

pub add_to-Dealt :
    (man : Man) (idx c job : ℕ)
    → c < length man.twq_pool
    → Returns
        (λ m. Dealt man c job m × (m.twq_idx ≡ idx))
        (add_to (record man { twq_idx = idx }) c job)
unfolding add_to
add_to-Dealt man idx c job h =
    let (q, e) = get_elem?-some man.twq_pool c h in
    rw (e, add_to)
      (returns (record { queue = q; was = e; pool = refl; same_nr = refl; same_ops = refl }, refl))

pub Dealt-IsTable : (man man' : Man) (c job : ℕ) → IsTable man → Dealt man c job man' → IsTable man'
Dealt-IsTable man man' c job t d = record {
  sized = ap length d.pool ∙ length-set man.twq_pool c _ ∙ t.sized ∙ sym d.same_nr;
  nonempty = omega (arith, t.nonempty, d.same_nr);
  word = omega (arith, t.word, d.same_nr);
}

-- The queue that round robin chooses when `twq_idx` reads `idx`, and the index that it leaves.
abbrev pub choice : ℕ → ℕ → ℕ
choice nr idx = if leb nr idx then 0 else idx

abbrev pub next_idx : ℕ → ℕ → ℕ
next_idx nr idx = if leb nr idx then 0 else idx + 1

-- With a table of at least one and fewer than 2^32 queues, and whatever `twq_idx` reads, `rr_add_job`
-- puts the job at the end of one queue of the table and leaves the others alone: of the queue at
-- `twq_idx`, or of queue 0 when that is behind the table.
pub rr_add_job-Dealt :
    (man : Man) (job : ℕ)
    → IsTable man
    → Returns
        (λ m.
          Dealt man (choice man.twq_pool_nr man.twq_idx) job m
          × (m.twq_idx ≡ next_idx man.twq_pool_nr man.twq_idx)
          × IsTable m)
        (rr_add_job man job)
unfolding rr_add_job
rr_add_job-Dealt man job t = elim (Bool-cases (leb man.twq_pool_nr man.twq_idx)) [
  | inl wrap ↦ rw wrap (
      Returns-mono (add_to-Dealt man 0 0 job (omega (arith, t.sized, t.nonempty)))
        λ m (d, e). (d, e, Dealt-IsTable man m _ job t d))
  | inr below ↦
      let small : (man.twq_idx + 1) % 2 ^ 32 ≡ man.twq_idx + 1 = ground (arith, t.word) in
      rw (below, small)
        (Returns-mono (add_to-Dealt man (man.twq_idx + 1) man.twq_idx job (ground (arith, t.sized)))
          λ m (d, e). (d, e, Dealt-IsTable man m _ job t d))
]

-- On a table of `nr` queues, at least one and fewer than 2^32, `threadwq_man_init` makes a manager of
-- that table whose first job goes to queue 0. It aborts on no table, no callbacks, and a size of 0.
pub man_init-IsTable :
    (qs : List (List ℕ)) (nr : ℕ) (ops : Ops) (garbage : ℕ)
    → length qs ≡ nr
    → 0 < nr
    → nr < 2 ^ 32
    → Returns
        (λ m. IsTable m × (m.twq_idx ≡ 0) × (m.twq_pool ≡ qs) × (m.ops ≡ ops))
        (man_init (some qs) nr (some ops) garbage)
      × (man_init (some qs) 0 (some ops) garbage ≡ aborted)
      × (man_init none nr (some ops) garbage ≡ aborted)
      × ((tbl : Option (List (List ℕ))) → man_init tbl nr none garbage ≡ aborted)
unfolding man_init rr_init
man_init-IsTable qs nr ops garbage e some_queue word =
    let positive : (nr == 0) ≡ false = ground arith in
    (
      rw positive
          (returns (record { sized = e; nonempty = some_queue; word = word }, refl, refl, refl)),
      refl,
      refl,
      λ tbl. refl,
    )
