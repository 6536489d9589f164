-- ===== src/Manager/Threads.antt =====
-- template-v1/src/threadwq/threadwq_man_rr.c with any number of threads in `rr_add_job`, or in
-- `rr4idle_add_job`, at once: each access to `twq_idx`, which they share, is one step.
use linux_c_template.Prelude.{
  ℕ, zero, suc, ◌+◌, ◌%◌, ◌^◌, ◌<◌, ◌≤◌, ◌≡◌, refl, List, [], ◌∷◌, arith, ap, ◌∙◌,
}
use linux_c_template.Prelude.Tests.{ltb, if◌then◌else◌}
use linux_c_template.Prelude.Lists.{length, replicate}
use linux_c_template.Manager.{Ops, rr, rr4idle}
use linux_c_template.Manager.Bounds.{choice}

-- Where a thread stands in its call.
pub data Spot : Type 0 where
  outside : Spot
  choosing : ℕ → Spot  -- with its own `idx`
  using : ℕ → Spot  -- with `&man->twq_pool[idx]`

-- A step of one thread, and what it makes of `twq_idx`.
pub data Deal (ops : Ops) (nr v : ℕ) : Spot → ℕ → Spot → Type 0 where
  reads : Deal ops nr v outside v (choosing v)
  resets : {i : ℕ} → ops ≡ rr → nr ≤ i → Deal ops nr v (choosing i) 0 (using 0)
  counts : {i : ℕ} → ops ≡ rr → i < nr → Deal ops nr v (choosing i) ((v + 1) % 2 ^ 32) (using i)
  lock_fails :
      {i : ℕ} → ops ≡ rr4idle → Deal ops nr v (choosing i) v (choosing ((choice nr i + 1) % 2 ^ 32))
  locks :
      {i : ℕ}
      → ops ≡ rr4idle
      → Deal ops nr v (choosing i) ((choice nr i + 1) % 2 ^ 32) (using (choice nr i))
  adds : {i : ℕ} → Deal ops nr v (using i) v outside

-- A step of one of the threads.
pub data Race (ops : Ops) (nr v : ℕ) : List Spot → ℕ → List Spot → Type 0 where
  first :
      {s t : Spot} {rest : List Spot} {w : ℕ}
      → Deal ops nr v s w t
      → Race ops nr v (s ∷ rest) w (t ∷ rest)
  beyond :
      {s : Spot} {rest rest' : List Spot} {w : ℕ}
      → Race ops nr v rest w rest'
      → Race ops nr v (s ∷ rest) w (s ∷ rest')

pub data Races (ops : Ops) (nr v : ℕ) (ss : List Spot) : ℕ → List Spot → Type 0 where
  at_start : Races ops nr v ss v ss
  further :
      {w w' : ℕ} {ts ts' : List Spot}
      → Races ops nr v ss w ts
      → Race ops nr w ts w' ts'
      → Races ops nr v ss w' ts'

-- The threads that will count `twq_idx` up.
abbrev pending : ℕ → List Spot → ℕ
pending nr [] = 0
pending nr (choosing i ∷ ss) = (if ltb i nr then 1 else 0) + pending nr ss
pending nr (outside ∷ ss) = pending nr ss
pending nr (using i ∷ ss) = pending nr ss

-- Each queue that a thread uses is one of the table.
abbrev pub AllUse : ℕ → List Spot → Type 0
AllUse nr [] = Unit
AllUse nr (outside ∷ ss) = AllUse nr ss
AllUse nr (choosing i ∷ ss) = AllUse nr ss
AllUse nr (using i ∷ ss) = (i < nr) × AllUse nr ss

pending-le : (nr : ℕ) (ss : List Spot) → pending nr ss ≤ length ss
pending-le nr [] = omega arith
pending-le nr (choosing i ∷ ss) = let h = pending-le nr ss in ground arith
pending-le nr (outside ∷ ss) = let h = pending-le nr ss in omega arith
pending-le nr (using i ∷ ss) = let h = pending-le nr ss in omega arith

Race-length :
    {ops : Ops} {nr v w : ℕ} {ss ts : List Spot} → Race ops nr v ss w ts → length ts ≡ length ss
Race-length (first d) = refl
Race-length (beyond t) = ap suc (Race-length t)

-- The bound for `rr`, with `k` threads and `p` pending ones beside those of the list.
Race-rr :
    {nr v w : ℕ} {ss ts : List Spot} (k p : ℕ)
    → Race rr nr v ss w ts
    → p ≤ k
    → nr + (k + length ss) ≤ 2 ^ 32
    → v + (p + pending nr ss) < nr + (k + length ss)
    → w + (p + pending nr ts) < nr + (k + length ts)
Race-rr {nr} k p (first {rest = rest} reads) le room h = let b = pending-le nr rest in ground arith
Race-rr {nr} k p (first {rest = rest} (resets e i)) le room h =
    let b = pending-le nr rest in ground arith
Race-rr k p (first (counts e i)) le room h = ground arith
Race-rr k p (first (lock_fails e)) le room h = cc
Race-rr k p (first (locks e)) le room h = cc
Race-rr k p (first adds) le room h = h
Race-rr {nr} {v} {w} k p (beyond {s = outside} {rest} {rest'} t) le room h = omega (
  arith,
  Race-rr {nr = nr} {v = v} {w = w} {ss = rest} {ts = rest'} (k + 1) p t (omega arith) (omega arith)
      (omega arith),
)
Race-rr {nr} {v} {w} k p (beyond {s = using i} {rest} {rest'} t) le room h = omega (
  arith,
  Race-rr {nr = nr} {v = v} {w = w} {ss = rest} {ts = rest'} (k + 1) p t (omega arith) (omega arith)
      (omega arith),
)
Race-rr {nr} {v} {w} k p (beyond {s = choosing i} {rest} {rest'} t) le room h =
    let one : ℕ = if ltb i nr then 1 else 0 in
    let small : one ≤ 1 = ground arith in
    omega (
      arith,
      Race-rr {nr = nr} {v = v} {w = w} {ss = rest} {ts = rest'} (k + 1) (p + one) t (omega arith)
          (omega arith) (omega arith),
    )

choice-lt : (nr i : ℕ) → 0 < nr → choice nr i < nr
choice-lt nr i h = ground arith

Deal-AllUse :
    {ops : Ops} {nr v w : ℕ} {s t : Spot} (rest : List Spot)
    → 0 < nr
    → Deal ops nr v s w t
    → AllUse nr (s ∷ rest)
    → AllUse nr (t ∷ rest)
Deal-AllUse rest some_queue reads u = u
Deal-AllUse rest some_queue (resets e i) u = (some_queue, u)
Deal-AllUse rest some_queue (counts e i) u = (i, u)
Deal-AllUse rest some_queue (lock_fails e) u = u
Deal-AllUse {nr = nr} rest some_queue (locks {i} e) u = (choice-lt nr i some_queue, u)
Deal-AllUse rest some_queue adds u = u.1

Race-AllUse :
    {ops : Ops} {nr v w : ℕ} {ss ts : List Spot}
    → 0 < nr
    → Race ops nr v ss w ts
    → AllUse nr ss
    → AllUse nr ts
Race-AllUse some_queue (first {rest = rest} d) u = Deal-AllUse rest some_queue d u
Race-AllUse some_queue (beyond {s = outside} t) u = Race-AllUse some_queue t u
Race-AllUse some_queue (beyond {s = choosing i} t) u = Race-AllUse some_queue t u
Race-AllUse some_queue (beyond {s = using i} t) (lt, u) = (lt, Race-AllUse some_queue t u)

Race-idle :
    {nr v w : ℕ} {ss ts : List Spot}
    → 0 < nr
    → nr < 2 ^ 32
    → Race rr4idle nr v ss w ts
    → v ≤ nr
    → w ≤ nr
Race-idle some_queue word (first reads) h = h
Race-idle some_queue word (first (resets e i)) h = cc
Race-idle some_queue word (first (counts e i)) h = cc
Race-idle some_queue word (first (lock_fails e)) h = h
Race-idle {nr} some_queue word (first (locks {i} e)) h = omega (arith, choice-lt nr i some_queue)
Race-idle some_queue word (first adds) h = h
Race-idle some_queue word (beyond t) h = Race-idle some_queue word t h

-- How far `twq_idx` can get when `k` threads add jobs.
abbrev pub Limit : Ops → ℕ → ℕ → ℕ → Type 0
Limit rr nr k v = v < nr + k
Limit rr4idle nr k v = v ≤ nr

Limit-rr :
    {nr k v : ℕ} {ss : List Spot}
    → 0 < nr
    → nr + k ≤ 2 ^ 32
    → Races rr nr 0 (replicate k outside) v ss
    → (length ss ≡ k) × (v + pending nr ss < nr + k)
Limit-rr {nr} {k} some_queue room at_start = (length-replicate k, omega (arith, none_pending k))
  where
    length-replicate : (k : ℕ) → length (replicate k outside) ≡ k
    length-replicate zero = refl
    length-replicate (suc k) = ap suc (length-replicate k)

    none_pending : (k : ℕ) → pending nr (replicate k outside) ≡ 0
    none_pending zero = refl
    none_pending (suc k) = none_pending k
Limit-rr {nr} some_queue room (further r t) =
    let (len, h) = Limit-rr some_queue room r in
    let same = Race-length t ∙ len in
    (same, omega (arith, Race-rr 0 0 t (omega arith) (omega arith) (omega arith)))

Limit-idle :
    {nr : ℕ} {ss : List Spot} {v : ℕ} {ts : List Spot}
    → 0 < nr
    → nr < 2 ^ 32
    → Races rr4idle nr 0 ss v ts
    → v ≤ nr
Limit-idle some_queue word at_start = omega arith
Limit-idle some_queue word (further r t) =
    Race-idle some_queue word t (Limit-idle some_queue word r)

Races-AllUse :
    {ops : Ops} {nr v : ℕ} {ss : List Spot} {w : ℕ} {ts : List Spot}
    → 0 < nr
    → Races ops nr v ss w ts
    → AllUse nr ss
    → AllUse nr ts
Races-AllUse some_queue at_start u = u
Races-AllUse some_queue (further r t) u = Race-AllUse some_queue t (Races-AllUse some_queue r u)

-- However `k` threads that add jobs interleave, on a table of at least one queue, with fewer than
-- 2^32 queues, and at most 2^32 queues and threads, after `threadwq_man_init`: each queue that a thread uses is one of the table, and `twq_idx` does not wrap
-- around; with `rr_add_job` it stays below the number of queues and threads, with `rr4idle_add_job` it is
-- at most the number of queues.
pub Races-Limit :
    (ops : Ops) (nr k : ℕ) {v : ℕ} {ss : List Spot}
    → 0 < nr
    → nr < 2 ^ 32
    → nr + k ≤ 2 ^ 32
    → Races ops nr 0 (replicate k outside) v ss
    → AllUse nr ss × Limit ops nr k v × (v < 2 ^ 32)
Races-Limit ops nr k some_queue word room r =
    let limit = limited ops r in (Races-AllUse some_queue r (none_use k), limit, small ops limit)
  where
    none_use : (k : ℕ) → AllUse nr (replicate k outside)
    none_use zero = tt
    none_use (suc k) = none_use k

    limited :
        (ops : Ops) {v : ℕ} {ss : List Spot}
        → Races ops nr 0 (replicate k outside) v ss
        → Limit ops nr k v
    limited rr r = let (_, h) = Limit-rr some_queue room r in omega arith
    limited rr4idle r = Limit-idle some_queue word r

    small : (ops : Ops) {v : ℕ} → Limit ops nr k v → v < 2 ^ 32
    small rr h = omega arith
    small rr4idle h = omega arith
