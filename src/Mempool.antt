-- ===== src/Mempool.antt =====
-- template-v1/src/mempool/mempool.h and mempool.c: a pool of slices, with a cache of free ones.
pub mod SliceSize
mod Defs
pub mod Shape
pub mod Invariant
pub mod Free
pub mod Alloc
pub mod Recycle
pub mod Init
pub mod Limits
pub mod Keeps
pub mod Threads
mod Examples
use linux_c_template.Prelude.{
  ℕ, ◌+◌, ◌-◌, ◌%◌, ◌^◌, Bool, true, false, not, ◌&&◌, ◌||◌, Option, none, some, List, [], ◌∷◌,
}
use linux_c_template.Prelude.Tests.{ltb, leb, ◌==◌, if◌then◌else◌}
use linux_c_template.Prelude.Lists.{take}
use linux_c_template.Prelude.Outcome.{Outcome, ok, aborted, fault, deadlocked, ◌>>=◌, ◌>>◌, bug_on}
use linux_c_template.ListHead.{ListHead}
pub use Defs.{null, mempool_slice_magic, Memory, Ctor, Dtor, Mempool, State}
unfoldable pub use Defs.{write}
use SliceSize.{calc_slice_size, sizeof_mempool_slice}

abbrev pub u64 : ℕ → ℕ
u64 n = n % 2 ^ 64

-- `if (mp->dtor) …`
unfoldable pub run_dtor : Option Dtor → ℕ → Memory → Memory
run_dtor none p mem = mem
run_dtor (some d) p mem = d p mem

-- `if (mp->ctor) …`: whether the caller rejects the slice
unfoldable pub run_ctor : Option Ctor → ℕ → Memory → Bool × Memory
run_ctor none p mem = (false, mem)
run_ctor (some c) p mem = c p mem

module _ {Links : Type 0} where
  -- A spin lock is not recursive: its holder would wait for itself.
  unfoldable pub spin_lock : State Links → Outcome (State Links)
  spin_lock s =
      if s.pool.locked then deadlocked else ok (record s { pool = record s.pool { locked = true } })

  unfoldable pub spin_unlock : State Links → State Links
  spin_unlock s = record s { pool = record s.pool { locked = false } }

  -- `BUG_ON(slice->magic != MEMPOOL_SLICE_MAGIC)`
  unfoldable pub check_magic : ℕ → State Links → Outcome (Unit {0})
  check_magic p s = elim (s.mem p) [
    | none ↦ fault
    | some w ↦ bug_on (not (w == mempool_slice_magic))
  ]

  unfoldable pub free_slice : ℕ → State Links → Outcome (State Links)
  unfolding check_magic write
  free_slice p s = do
    check_magic p s
    ok (record {
      pool = record s.pool { ref = u64 (s.pool.ref + 2 ^ 64 - 1) };
      mem = write s.mem p none;
    })

  -- `slice->magic = MEMPOOL_SLICE_MAGIC`
  unfoldable pub set_magic : ℕ → State Links → Outcome (State Links)
  unfolding write
  set_magic p s = elim (s.mem p) [
    | none ↦ fault
    | some _ ↦ ok (record s { mem = write s.mem p (some mempool_slice_magic) })
  ]

  -- The result of `malloc`, counted.
  unfoldable pub take_block : Option (ℕ × ℕ) → State Links → Outcome (ℕ × State Links)
  unfolding write
  take_block none s = ok (null, s)
  take_block (some (p, w)) s = ok (
    p,
    record { pool = record s.pool { ref = u64 (s.pool.ref + 1) }; mem = write s.mem p (some w) },
  )

module _ (lh : ListHead) where
  open lh use {Links, init_list_head, list_add, list_del, list_empty, list_first_entry, entries}

  -- The branch that has no free slice. `answer` is what `malloc` returns: a block, with the word
  -- that happens to stand at its start.
  unfoldable pub malloc_slice : Option (ℕ × ℕ) → State Links → Outcome (ℕ × State Links)
  unfolding take_block
  malloc_slice answer s =
      if not (s.pool.max == 0) && leb s.pool.max s.pool.ref
      then ok (null, record s { pool = record s.pool { fail = u64 (s.pool.fail + 1) } })
      else do bug_on (ltb s.pool.sz sizeof_mempool_slice); take_block answer s

  -- The branch that takes the first free slice.
  unfoldable pub cached_slice : State Links → Outcome (ℕ × State Links)
  unfolding check_magic
  cached_slice s = do
    let p = list_first_entry s.pool.list_free
    let s' : State Links = record s {
      pool = record s.pool { list_free = list_del p s.pool.list_free };
    }
    check_magic p s'
    ok (p, s')

  unfoldable pub alloc_slice : Option (ℕ × ℕ) → State Links → Outcome (ℕ × State Links)
  unfolding malloc_slice cached_slice
  alloc_slice answer s =
      if list_empty s.pool.list_free then malloc_slice answer s else cached_slice s

  -- `mempool_free`
  unfoldable pub free : ℕ → State Links → Outcome (State Links)
  unfolding run_dtor set_magic spin_lock spin_unlock
  free p s = do
    s ← set_magic p (record s { mem = run_dtor s.pool.dtor p s.mem })
    s ← spin_lock s
    ok (spin_unlock (record s { pool = record s.pool { list_free = list_add p s.pool.list_free } }))

  -- The second half of `mempool_alloc`, outside the lock.
  unfoldable pub construct : ℕ → State Links → Outcome (ℕ × State Links)
  unfolding run_ctor free
  construct p s =
      let (rejects, mem') = run_ctor s.pool.ctor p s.mem in
      if rejects
      then (do s' ← free p (record s { mem = mem' }); ok (null, s'))
      else ok (p, record s { mem = mem' })

  -- `mempool_alloc`; `null` is the failure
  unfoldable pub alloc : Option (ℕ × ℕ) → State Links → Outcome (ℕ × State Links)
  unfolding spin_lock spin_unlock alloc_slice construct
  alloc answer s = do s ← spin_lock s; (p, s) ← alloc_slice answer s; construct p (spin_unlock s)

  -- The loop of `__mempool_recycle` over the entries that were linked when it began.
  unfoldable pub recycle_loop : List ℕ → ℕ → State Links → Outcome (State Links)
  unfolding free_slice
  recycle_loop [] reserve s = ok s
  recycle_loop (p ∷ ps) reserve s = if leb s.pool.ref reserve then ok s else do
    s ← free_slice p (record s { pool = record s.pool { list_free = list_del p s.pool.list_free } })
    recycle_loop ps reserve s

  -- `__mempool_recycle`
  unfoldable pub recycle_unlocked : ℕ → State Links → Outcome (State Links)
  unfolding recycle_loop
  recycle_unlocked reserve s =
      if not (list_empty s.pool.list_free)
      then recycle_loop (entries s.pool.list_free) reserve s
      else ok s

  -- `mempool_recycle`, which does not pass `reserve` on
  unfoldable pub recycle : ℕ → State Links → Outcome (State Links)
  unfolding spin_lock spin_unlock recycle_unlocked
  recycle reserve s = do s ← spin_lock s; s ← recycle_unlocked 0 s; ok (spin_unlock s)

  -- `mempool_init` of the pool at an address; no name is `NULL`. `snprintf` keeps 15 characters.
  unfoldable pub init :
      ℕ → Option (List ℕ) → ℕ → ℕ → Option Ctor → Option Dtor → Memory → Outcome (State Links)
  unfolding calc_slice_size
  init mp none size max ctor dtor mem = aborted
  init mp (some []) size max ctor dtor mem = aborted
  init mp (some (c ∷ cs)) size max ctor dtor mem =
      if mp == null
      then aborted
      else ok (record {
        pool = record {
          magic = 0x54085408;
          sz = calc_slice_size size;
          name = take 15 (c ∷ cs);
          ref = 0;
          max = max;
          fail = 0;
          ctor = ctor;
          dtor = dtor;
          locked = false;
          list_free = init_list_head;
        };
        mem = mem;
      })

  -- `mempool_exit`, with the number of slices that it reports as leaked
  unfoldable pub exit : State Links → Outcome (Option ℕ × State Links)
  unfolding recycle_unlocked
  exit s = do
    s ← recycle_unlocked 0 s
    ok (if not (s.pool.ref == 0) then some s.pool.ref else none, s)
