-- ===== src/Manager/Idle.antt =====
-- `rr4idle_add_job` of template-v1/src/threadwq/threadwq_man_rr.c.
use linux_c_template.Prelude.{
  ℕ, suc, zero, ◌+◌, ◌%◌, ◌^◌, ◌<◌, ◌≡◌, inl, inr, Bool, true, false, arith,
}
use linux_c_template.Prelude.Tests.{Bool-cases}
use linux_c_template.Prelude.Lists.{get_elem?-some}
use linux_c_template.Prelude.Outcome.{Returns, Returns-mono}
use linux_c_template.Manager.{Man, rr4idle_loop, rr4idle_add_job}
use linux_c_template.Manager.Bounds.{IsTable, Dealt, add_to-Dealt, choice}

-- The queue that the `n`-th `pthread_mutex_trylock` of the loop is for, which starts at `idx`.
abbrev pub turn : ℕ → ℕ → ℕ → ℕ
turn nr idx zero = choice nr idx
turn nr idx (suc n) = turn nr (choice nr idx + 1) n

-- The job went to a queue whose mutex was free, all those before it in the turn were held, and the
-- next call starts behind it.
pub record Settled (held : ℕ → ℕ → Bool) (n idx : ℕ) (man : Man) (job : ℕ) (man' : Man)
    : Type 0 where
  pub tries : ℕ
  pub dealt : Dealt man (turn man.twq_pool_nr idx tries) job man'
  pub free : held (n + tries) (turn man.twq_pool_nr idx tries) ≡ false
  pub taken : (k : ℕ) → k < tries → held (n + k) (turn man.twq_pool_nr idx k) ≡ true
  pub next : man'.twq_idx ≡ turn man.twq_pool_nr idx tries + 1

choice-lt : (nr idx : ℕ) → 0 < nr → choice nr idx < nr
choice-lt nr idx h = ground arith

-- One more attempt, in front of those of a loop that started behind a held queue.
Settled-later :
    (held : ℕ → ℕ → Bool) (n idx job : ℕ) (man man' : Man)
    → held n (choice man.twq_pool_nr idx) ≡ true
    → Settled held (n + 1) (choice man.twq_pool_nr idx + 1) man job man'
    → Settled held n idx man job man'
Settled-later held n idx job man man' busy r = record {
  tries = suc r.tries;
  dealt = r.dealt;
  free = rw (shift r.tries) r.free;
  taken = taken;
  next = r.next;
}
  where
    shift : (k : ℕ) → n + suc k ≡ n + 1 + k
    shift k = omega arith

    first : n + 0 ≡ n
    first = omega arith

    taken : (k : ℕ) → k < suc r.tries → held (n + k) (turn man.twq_pool_nr idx k) ≡ true
    taken zero h = rw first busy
    taken (suc k) h = rw (shift k) (r.taken k (omega arith))

module _ (held : ℕ → ℕ → Bool) (job : ℕ) (man : Man) (t : IsTable man) where
  rr4idle_loop-first :
      (fuel n idx : ℕ)
      → held n (choice man.twq_pool_nr idx) ≡ false
      → Returns (Settled held n idx man job) (rr4idle_loop held (suc fuel) n idx man job)
  unfolding rr4idle_loop
  rr4idle_loop-first fuel n idx free =
      let i = choice man.twq_pool_nr idx in
      let lt : i < man.twq_pool_nr = choice-lt man.twq_pool_nr idx t.nonempty in
      let (q, e) = get_elem?-some man.twq_pool i (omega (arith, t.sized)) in
      let small : (i + 1) % 2 ^ 32 ≡ i + 1 = omega (arith, t.word) in
      let still : n + 0 ≡ n = omega arith in
      rw (e, rr4idle_loop, free, small)
        (Returns-mono (add_to-Dealt man (i + 1) i job (omega (arith, t.sized))) λ m (d, at).
          record {
            tries = 0;
            dealt = d;
            free = rw still free;
            taken = λ k h. absurd (omega arith);
            next = at;
          })

  rr4idle_loop-Settled :
      (k fuel n idx : ℕ)
      → k < fuel
      → held (n + k) (turn man.twq_pool_nr idx k) ≡ false
      → Returns (Settled held n idx man job) (rr4idle_loop held fuel n idx man job)
  unfolding rr4idle_loop
  rr4idle_loop-Settled k zero n idx lt free = absurd (omega arith)
  rr4idle_loop-Settled zero (suc fuel) n idx lt free =
      let still : n + 0 ≡ n = omega arith in rr4idle_loop-first fuel n idx (rw still at free)
  rr4idle_loop-Settled (suc k) (suc fuel) n idx lt free =
      let i = choice man.twq_pool_nr idx in
      let below : i < man.twq_pool_nr = choice-lt man.twq_pool_nr idx t.nonempty in
      let (q, e) = get_elem?-some man.twq_pool i (omega (arith, t.sized)) in
      let shift : n + suc k ≡ n + 1 + k = omega arith in
      let rest = rr4idle_loop-Settled k fuel (n + 1) (i + 1) (omega arith) (rw shift at free) in
      elim (Bool-cases (held n i)) [
        | inl busy ↦
            rw (e, rr4idle_loop, busy)
              (Returns-mono rest λ m r. Settled-later held n idx job man m busy r)
        | inr now ↦ rr4idle_loop-first fuel n idx now
      ]

  -- With a table of at least one and fewer than 2^32 queues, and when the `k`-th attempt of
  -- `rr4idle_add_job` would find its queue free, the call ends after at
  -- most `k + 1` attempts: it goes round the table from `twq_idx`, gives the job to the first queue
  -- whose mutex it gets, and lets the next call start behind that queue.
  pub rr4idle_add_job-Settled :
      (k fuel : ℕ)
      → k < fuel
      → held k (turn man.twq_pool_nr man.twq_idx k) ≡ false
      → Returns (Settled held 0 man.twq_idx man job) (rr4idle_add_job held fuel man job)
  unfolding rr4idle_add_job
  rr4idle_add_job-Settled k fuel lt free =
      let none_before : 0 + k ≡ k = omega arith in
      rr4idle_loop-Settled k fuel 0 man.twq_idx lt (rw none_before free)
