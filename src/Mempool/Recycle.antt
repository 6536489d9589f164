-- ===== src/Mempool/Recycle.antt =====
-- `__mempool_recycle`, `mempool_recycle` and `mempool_exit` of template-v1/src/mempool/mempool.c.
use linux_c_template.Prelude.{
  ℕ, zero, suc, ◌-◌, min, max, ◌+◌, ◌^◌, ◌≤◌, ◌<◌, ◌≡◌, refl, ◌⊎◌, inl, inr, true, false, none,
  some, List, [], ◌∷◌, arith, ap, ◌∙◌,
}
use linux_c_template.Prelude.Tests.{if◌then◌else◌, leb, ◌==◌, Bool-cases}
use linux_c_template.Prelude.Lists.{length, drop}
use linux_c_template.Prelude.Outcome.{Returns, returns, Returns-bind, Returns-mono}
use linux_c_template.ListHead.{ListHead}
use linux_c_template.Mempool.{
  u64, State, mempool_slice_magic, write, check_magic, spin_lock, spin_unlock, recycle,
  recycle_unlocked, recycle_loop, exit,
}
use linux_c_template.Mempool.Shape.{Shape-drop}
use linux_c_template.Mempool.Invariant.{IsOwned, IsPool, IsOwned-locked, entries-list_del_first}

-- The outcome of freeing cached slices from the front while more than `reserve` are counted.
pub record Recycled (lh : ListHead) (live : List ℕ) (reserve : ℕ) (s s' : State lh.Links)
    : Type 0 where
  pub owned : IsOwned lh live s'
  pub counted : s'.pool.ref ≡ min s.pool.ref (max reserve (length live))
  pub left :
      lh.entries s'.pool.list_free ≡ drop (s.pool.ref - s'.pool.ref) (lh.entries s.pool.list_free)
  pub lock : s'.pool.locked ≡ s.pool.locked

drop-cons {ℓ} :
    {A : Type ℓ} (a b : ℕ) (x : A) (xs : List A)
    → b < a
    → drop (a - 1 - b) xs ≡ drop (a - b) (x ∷ xs)
drop-cons a b x xs h = let more : a - b ≡ suc (a - 1 - b) = omega arith in rw more

module _ (lh : ListHead) {live : List ℕ} (reserve : ℕ) where
  stop-Recycled :
      (s : State lh.Links)
      → IsOwned lh live s
      → (s.pool.ref ≤ reserve) ⊎ (s.pool.ref ≡ length live)
      → Recycled lh live reserve s s
  stop-Recycled s inv enough = record {
    owned = inv;
    counted = ground arith;
    left = rw none_gone;
    lock = refl;
  }
    where
      none_gone : s.pool.ref - s.pool.ref ≡ 0
      none_gone = omega arith

  recycle_loop-Recycled :
      (ps : List ℕ) (s : State lh.Links)
      → IsOwned lh live s
      → lh.entries s.pool.list_free ≡ ps
      → Returns (Recycled lh live reserve s) (recycle_loop lh ps reserve s)
  unfolding recycle_loop
  recycle_loop-Recycled [] s inv e =
      returns (stop-Recycled s inv (inr (omega (arith, ap length e, inv.shape.counted))))
  recycle_loop-Recycled (p ∷ ps) s inv e = elim (Bool-cases (leb s.pool.ref reserve)) [
    | inl enough ↦ rw enough (returns (stop-Recycled s inv (inl (ground arith))))
    | inr more ↦
        rw (more, marked, check_magic)
          (Returns-mono (recycle_loop-Recycled ps next owned rest) λ s' done. record {
            owned = done.owned;
            counted = ground (arith, done.counted, small, inv.shape.counted, ap length e);
            left =
                done.left
                ∙ rw (small, rest, e)
                    (drop-cons s.pool.ref s'.pool.ref p ps
                      (omega (arith, positive, small, done.counted)));
            lock = done.lock;
          })
  ]
    where
      marked : s.mem p ≡ some mempool_slice_magic
      marked = inv.shape.marked p (rw e (ground arith))

      next : State lh.Links
      next = record {
        pool = record s.pool {
          list_free = lh.list_del p s.pool.list_free;
          ref = u64 (s.pool.ref + 2 ^ 64 - 1);
        };
        mem = write s.mem p none;
      }

      rest : lh.entries (lh.list_del p s.pool.list_free) ≡ ps
      rest = entries-list_del_first lh s.pool.list_free p ps inv.shape.linked e

      positive : s.pool.ref ≡ suc (s.pool.ref - 1)
      positive = omega (arith, inv.shape.counted, ap length e)

      small : u64 (s.pool.ref + 2 ^ 64 - 1) ≡ s.pool.ref - 1
      small = omega (arith, positive, inv.shape.fits)

      owned : IsOwned lh live next
      owned = record {
        shape = rw (rest, small) (Shape-drop (rw e at inv.shape) (s.pool.ref - 1) positive);
        ctor_own = inv.ctor_own;
        dtor_own = inv.dtor_own;
      }

  -- On a well formed pool, `__mempool_recycle` frees slices from the hot end of the cache until no more
  -- than `reserve` slices are counted or the cache is empty. It never frees a slice in use, and the pool
  -- stays well formed.
  pub recycle_unlocked-Recycled :
      (s : State lh.Links)
      → IsOwned lh live s
      → Returns (Recycled lh live reserve s) (recycle_unlocked lh reserve s)
  unfolding recycle_unlocked
  recycle_unlocked-Recycled s inv = elim (Bool-cases (lh.list_empty s.pool.list_free)) [
    | inl nothing ↦ rw nothing (
        returns (
          stop-Recycled s inv (
            inr (
              omega (
                arith,
                inv.shape.counted,
                ap length ((lh.list_empty_iff s.pool.list_free).0 nothing),
              )))))
    | inr more ↦ rw more (recycle_loop-Recycled (lh.entries s.pool.list_free) s inv refl)
  ]

drop_all {ℓ} : {A : Type ℓ} (n : ℕ) (xs : List A) → length xs ≤ n → drop n xs ≡ []
drop_all zero [] h = refl
drop_all zero (x ∷ xs) h = absurd (omega arith)
drop_all (suc n) [] h = refl
drop_all (suc n) (x ∷ xs) h = drop_all n xs (omega arith)

-- The cache is empty, and only the slices in use are counted.
pub record Emptied (lh : ListHead) (live : List ℕ) (s : State lh.Links) : Type 0 where
  pub pool : IsPool lh live s
  pub empty : lh.entries s.pool.list_free ≡ []
  pub counted : s.pool.ref ≡ length live

module _ (lh : ListHead) {live : List ℕ} where
  Recycled-Emptied :
      (s s' : State lh.Links)
      → IsOwned lh live s
      → Recycled lh live 0 s s'
      → (lh.entries s'.pool.list_free ≡ []) × (s'.pool.ref ≡ length live)
  Recycled-Emptied s s' inv r = (
    r.left ∙ drop_all _ (lh.entries s.pool.list_free) (omega (arith, inv.shape.counted, r.counted)),
    omega (arith, inv.shape.counted, r.counted),
  )

  -- On a well formed pool, `mempool_recycle` empties the cache, whatever `reserve` it is given, and
  -- leaves the slices in use alone.
  pub recycle-Emptied :
      (reserve : ℕ) (s : State lh.Links)
      → IsPool lh live s
      → Returns (Emptied lh live) (recycle lh reserve s)
  unfolding recycle spin_lock spin_unlock
  recycle-Emptied reserve s inv =
      let held : State lh.Links = record s { pool = record s.pool { locked = true } } in
      let owned = IsOwned-locked lh s true inv.owned in
      rw inv.unlocked (
        Returns-bind (recycle_unlocked-Recycled lh 0 held owned) λ s' r.
          let (empty, counted) = Recycled-Emptied held s' owned r in
          returns (record {
            pool = record { owned = IsOwned-locked lh s' false r.owned; unlocked = refl };
            empty = empty;
            counted = counted;
          }))

  -- On a well formed pool, `mempool_exit` empties the cache and reports a leak exactly when slices are
  -- in use, with their number.
  pub exit-leak :
      (s : State lh.Links)
      → IsPool lh live s
      → Returns
          (λ (leak, s').
            Emptied lh live s' × (leak ≡ (if length live == 0 then none else some (length live))))
          (exit lh s)
  unfolding exit
  exit-leak s inv = Returns-bind (recycle_unlocked-Recycled lh 0 s inv.owned) λ s' r.
      let (empty, counted) = Recycled-Emptied s s' inv.owned r in
      returns (
        record {
          pool = record { owned = r.owned; unlocked = r.lock ∙ inv.unlocked };
          empty = empty;
          counted = counted;
        },
        ground arith,
      )
