-- ===== src/Mempool/Examples.antt =====
-- The theorems on template-v1/src/mempool/mempool.c at concrete pools.
use linux_c_template.Prelude.{
  ℕ, ◌%◌, ◌≤◌, ◌≡◌, ◌≢◌, refl, inr, false, Option, none, some, List, [], ◌∷◌, arith,
}
use linux_c_template.Prelude.Tests.{◌==◌, if◌then◌else◌}
use linux_c_template.Prelude.Outcome.{◌>>=◌, fault, aborted, Returns}
use linux_c_template.ListHead.{sequence}
use linux_c_template.Mempool.{
  Memory, null, Mempool, State, Ctor, Dtor, mempool_slice_magic, alloc, free, init, recycle,
}
use linux_c_template.Mempool.SliceSize.{
  calc_slice_size, calc_slice_size_bounds, sizeof_mempool_slice,
}
use linux_c_template.Mempool.Shape.{OwnBlock}
use linux_c_template.Mempool.Invariant.{IsPool}
use linux_c_template.Mempool.Free.{Freed, free-Freed}
use linux_c_template.Mempool.Alloc.{Allocated, alloc-Allocated}
use linux_c_template.Mempool.Recycle.{Emptied, recycle-Emptied}
use linux_c_template.Mempool.Init.{init-IsPool}
use linux_c_template.Mempool.Limits.{alloc-Exhausted_fault, free-alloc}

calc_slice_size_bounds_example :
    (25 ≤ calc_slice_size 25)
    × (sizeof_mempool_slice ≤ calc_slice_size 25)
    × (calc_slice_size 25 % 8 ≡ 0)
    × ((n : ℕ) → 25 ≤ n → sizeof_mempool_slice ≤ n → n % 8 ≡ 0 → calc_slice_size 25 ≤ n)
calc_slice_size_bounds_example = calc_slice_size_bounds 25 (omega arith)

-- A user holds the block at 8; the one at 16 is marked free.
abbrev heap : Memory
heap p = if p == 8 then some 5 else if p == 16 then some mempool_slice_magic else none

-- It scrubs the first word.
abbrev scrub : Dtor
scrub p mem q = elim (mem p) [ none ↦ mem q | some _ ↦ if q == p then some 0 else mem q ]

abbrev rejects_null : Ctor
rejects_null p mem = (p == 0, mem)

abbrev pool_of : List ℕ → Option Ctor → Option Dtor → Mempool (List ℕ)
pool_of cache ctor dtor = record {
  magic = 1409831944;
  sz = 24;
  name = 65 ∷ [];
  ref = 2;
  max = 2;
  fail = 0;
  ctor = ctor;
  dtor = dtor;
  locked = false;
  list_free = cache;
}

abbrev one_free : State (List ℕ)
one_free = record { pool = pool_of (16 ∷ []) none (some scrub); mem = heap }

scrub-OwnBlock : (p : ℕ) (mem : Memory) → OwnBlock p mem (scrub p mem)
scrub-OwnBlock p mem = record { others = λ q ne. ground arith; still = ground arith }

one_free-IsPool : IsPool sequence (8 ∷ []) one_free
one_free-IsPool = record {
  owned = record {
    shape = record {
      apart = (refl, tt);
      linked = (refl, tt);
      separate = λ p i. ground arith;
      counted = refl;
      marked = λ p i. ground arith;
      held = λ p i. ground arith;
      no_null = refl;
      capped = inr (omega arith);
      fits = omega arith;
      roomy = omega arith;
    };
    ctor_own = tt;
    dtor_own = scrub-OwnBlock;
  };
  unlocked = refl;
}

free-Freed_example : Returns (Freed sequence (8 ∷ []) 8 one_free) (free sequence 8 one_free)
free-Freed_example = free-Freed sequence one_free 8 one_free-IsPool.owned refl refl

alloc-Allocated_example :
    Returns (Allocated sequence (8 ∷ [])) (alloc sequence (some (32, 7)) one_free)
alloc-Allocated_example =
    alloc-Allocated sequence (some (32, 7)) one_free one_free-IsPool ((λ e. omega arith), refl)
      (omega arith)

recycle-Emptied_example : Returns (Emptied sequence (8 ∷ [])) (recycle sequence 2 one_free)
recycle-Emptied_example = recycle-Emptied sequence 2 one_free one_free-IsPool

init-IsPool_example :
    ((mp n : ℕ) (name : List ℕ)
      → mp ≢ null
      → Returns
          (λ s. IsPool sequence [] s × (s.pool.ref ≡ 0) × (s.pool.max ≡ 3) × (30 ≤ s.pool.sz))
          (init sequence mp (some (n ∷ name)) 30 3 none (some scrub) heap))
    × ((name : Option (List ℕ)) → init sequence null name 30 3 none (some scrub) heap ≡ aborted)
    × ((mp : ℕ) → init sequence mp (some []) 30 3 none (some scrub) heap ≡ aborted)
    × ((mp : ℕ) → init sequence mp none 30 3 none (some scrub) heap ≡ aborted)
init-IsPool_example =
    init-IsPool sequence 30 3 none (some scrub) heap (omega arith) tt scrub-OwnBlock refl

-- Both slices are in use.
abbrev none_free : State (List ℕ)
none_free = record { pool = pool_of [] none none; mem = heap }

alloc-Exhausted_fault_example :
    alloc sequence none (record none_free { pool = pool_of [] (some rejects_null) none }) ≡ fault
alloc-Exhausted_fault_example =
    alloc-Exhausted_fault sequence none
      (record none_free { pool = pool_of [] (some rejects_null) none }) refl rejects_null
      (record { no_cache = refl; limited = λ e. omega arith; full = omega arith }) refl refl refl
      (record { others = λ q ne. refl; still = refl }) tt

abbrev unlimited : State (List ℕ)
unlimited = record none_free { pool = record none_free.pool { max = 0 } }

abbrev plain : State (List ℕ)
plain = record { pool = pool_of (16 ∷ []) none none; mem = heap }

plain-IsPool : IsPool sequence (8 ∷ []) plain
plain-IsPool = record {
  owned = record { shape = one_free-IsPool.owned.shape; ctor_own = tt; dtor_own = tt };
  unlocked = refl;
}

free-alloc_example :
    Returns
      (λ (q, s'). (q ≡ 8) × (s'.pool.list_free ≡ 16 ∷ []) × (s'.pool.ref ≡ 2))
      (free sequence 8 plain >>= alloc sequence none)
free-alloc_example = free-alloc sequence none plain 8 plain-IsPool refl refl
