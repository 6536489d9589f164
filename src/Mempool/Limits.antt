-- ===== src/Mempool/Limits.antt =====
-- `mempool_alloc` of template-v1/src/mempool/mempool.c at the limit of the pool and after a free.
use linux_c_template.Prelude.{
  ℕ, ◌+◌, ◌^◌, ◌≤◌, ◌≡◌, refl, ◌≢◌, inl, inr, ◌⊎◌, ◌<◌, Bool, true, false, Option, none, some, List,
  ◌∷◌, arith, ap, ◌∙◌, ◌%◌, not, ◌&&◌,
}
use linux_c_template.Prelude.Tests.{ltb, leb, ◌==◌, is_some, Bool-cases}
use linux_c_template.Prelude.Lists.{◌∈◌}
use linux_c_template.Prelude.Outcome.{◌>>=◌, ok, fault, Returns, returns, Returns-bind}
use linux_c_template.ListHead.{ListHead}
use linux_c_template.Mempool.{
  State, Ctor, null, mempool_slice_magic, free, malloc_slice, cached_slice, alloc_slice,
  check_magic, set_magic, run_dtor, run_ctor, spin_lock, spin_unlock, construct, alloc, take_block,
  write,
}
use linux_c_template.Mempool.Shape.{OwnBlock}
use linux_c_template.Mempool.Invariant.{DtorOwn, IsPool, run_dtor-OwnBlock, entries-list_del_first}
use linux_c_template.Mempool.Free.{free-Freed}

-- No slice is cached and `max` of them are counted.
pub record Exhausted {Links : Type 0} (empty : Links → Bool) (s : State Links) : Type 0 where
  pub no_cache : empty s.pool.list_free ≡ true
  pub limited : s.pool.max ≢ 0
  pub full : s.pool.max ≤ s.pool.ref

none_of_is_some {ℓ} : {A : Type ℓ} (o : Option A) → is_some o ≡ false → o ≡ none
none_of_is_some none h = refl
none_of_is_some (some a) h = cc

not_empty :
    (lh : ListHead) (l : lh.Links) {p : ℕ} {ps : List ℕ}
    → lh.entries l ≡ p ∷ ps
    → lh.list_empty l ≡ false
not_empty lh l e = elim (Bool-cases (lh.list_empty l)) [
  | inl nothing ↦ cc (e, (lh.list_empty_iff l).0 nothing)
  | inr more ↦ more
]

module _ (lh : ListHead) (s : State lh.Links) (unlocked : s.pool.locked ≡ false) where
  -- With no slice cached, below the limit, without `ctor`, with slices that have room for their
  -- header and with the lock free, `mempool_alloc` hands out the block that `malloc` gives, and
  -- counts it.
  pub alloc-take_block :
      (p w : ℕ)
      → lh.list_empty s.pool.list_free ≡ true
      → (s.pool.max ≡ 0) ⊎ (s.pool.ref < s.pool.max)
      → 24 ≤ s.pool.sz
      → s.pool.ctor ≡ none
      → alloc lh (some (p, w)) s
        ≡ ok (
          p,
          record {
            pool = record s.pool { locked = false; ref = (s.pool.ref + 1) % 2 ^ 64 };
            mem = write s.mem p (some w);
          },
        )
  unfolding alloc spin_lock spin_unlock alloc_slice malloc_slice take_block construct run_ctor
  alloc-take_block p w nothing below roomy no_ctor =
      let within : (not (s.pool.max == 0) && leb s.pool.max s.pool.ref) ≡ false = ground arith in
      let large : ltb s.pool.sz 24 ≡ false = ground arith in
      rw (unlocked, nothing, within, large, no_ctor, run_ctor) refl

module _ (lh : ListHead) (answer : Option (ℕ × ℕ)) (s : State lh.Links)
    (unlocked : s.pool.locked ≡ false) where
  -- When no slice is cached, the limit is reached, there is no `ctor` and the lock is free, then
  -- `mempool_alloc` answers `NULL` and counts the failure, whatever `malloc` would answer, and nothing
  -- else changes.
  pub alloc-Exhausted :
      Exhausted lh.list_empty s
      → s.pool.ctor ≡ none
      → alloc lh answer s
        ≡ ok (
          null,
          record s { pool = record s.pool { locked = false; fail = (s.pool.fail + 1) % 2 ^ 64 } },
        )
  unfolding alloc spin_lock spin_unlock alloc_slice malloc_slice construct run_ctor
  alloc-Exhausted out no_ctor =
      let full : (not (s.pool.max == 0) && leb s.pool.max s.pool.ref) ≡ true =
        ground (arith, out.limited, out.full) in
      rw (unlocked, out.no_cache, full, no_ctor, run_ctor) refl

  -- When no slice is cached, the limit is reached and the lock is free, with a `ctor` that rejects
  -- `NULL`, and callbacks that keep to the block that they are given and none allocated at `NULL`,
  -- `mempool_alloc` is a fault: it hands the `NULL` to `ctor` and then to `mempool_free`, which
  -- writes through it.
  pub alloc-Exhausted_fault :
      (c : Ctor)
      → Exhausted lh.list_empty s
      → s.mem null ≡ none
      → s.pool.ctor ≡ some c
      → (c null s.mem).0 ≡ true
      → OwnBlock null s.mem (c null s.mem).1
      → DtorOwn s.pool.dtor
      → alloc lh answer s ≡ fault
  unfolding alloc spin_lock spin_unlock alloc_slice malloc_slice construct free
  alloc-Exhausted_fault c out no_null e rejects own_c own_d =
      let full : (not (s.pool.max == 0) && leb s.pool.max s.pool.ref) ≡ true =
        ground (arith, out.limited, out.full) in
      let own = run_dtor-OwnBlock s.pool.dtor null (c null s.mem).1 own_d in
      let nothing : run_dtor s.pool.dtor null (c null s.mem).1 null ≡ none =
        none_of_is_some _ (own.still ∙ own_c.still ∙ ap is_some no_null) in
      rw (unlocked, out.no_cache, full) (simp (e, run_ctor, rejects) (rw (nothing, set_magic) refl))

  -- The first cached slice is handed out before `malloc` is asked.
  pub alloc-cached :
      (p : ℕ) (ps : List ℕ)
      → lh.entries s.pool.list_free ≡ p ∷ ps
      → s.mem p ≡ some mempool_slice_magic
      → s.pool.ctor ≡ none
      → alloc lh answer s
        ≡ ok (
          p,
          record s {
            pool = record s.pool { locked = false; list_free = lh.list_del p s.pool.list_free };
          },
        )
  unfolding alloc spin_lock spin_unlock alloc_slice cached_slice construct run_ctor
  alloc-cached p ps e marked no_ctor =
      let more : lh.list_empty s.pool.list_free ≡ false = not_empty lh s.pool.list_free e in
      let first = lh.list_first_entry_lem s.pool.list_free p ps e in
      rw (unlocked, more, first, marked, check_magic, no_ctor, run_ctor)

-- In a well formed pool without `ctor`, a slice in use that is freed is the one that the next
-- `mempool_alloc` returns, and the cache and the count are then what they were.
pub free-alloc :
    (lh : ListHead) {live : List ℕ} (answer : Option (ℕ × ℕ)) (s : State lh.Links) (p : ℕ)
    → IsPool lh live s
    → p ∈ live
    → s.pool.ctor ≡ none
    → Returns
        (λ (q, s').
          (q ≡ p)
          × (lh.entries s'.pool.list_free ≡ lh.entries s.pool.list_free)
          × (s'.pool.ref ≡ s.pool.ref))
        (free lh p s >>= alloc lh answer)
free-alloc lh answer s p inv i no_ctor =
    Returns-bind (free-Freed lh s p inv.owned inv.unlocked i) λ s' f.
      let shape = f.pool.owned.shape in
      let cached : p ∈ lh.entries s'.pool.list_free = rw f.first (ground arith) in
      let rest = lh.entries s.pool.list_free in
      let taken =
        alloc-cached lh answer s' f.pool.unlocked p rest f.first (shape.marked p cached) in
      rw (taken (f.same_ctor ∙ no_ctor)) (
        returns
          (refl, entries-list_del_first lh s'.pool.list_free p rest shape.linked f.first, f.kept))
