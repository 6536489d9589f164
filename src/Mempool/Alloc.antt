-- ===== src/Mempool/Alloc.antt =====
-- `mempool_alloc` of template-v1/src/mempool/mempool.c.
use linux_c_template.Prelude.{
  ℕ, ◌+◌, ◌^◌, ◌<◌, ◌≡◌, refl, ◌≢◌, ◌⊎◌, inl, inr, true, false, Option, none, some, List, [], ◌∷◌,
  arith, ◌∙◌, sym, ◌%◌, not, ◌&&◌,
}
use mathlib.Core.Bool.{false≢true}
use linux_c_template.Prelude.Tests.{ltb, leb, ◌==◌, Bool-cases}
use linux_c_template.Prelude.Lists.{◌∉◌}
use linux_c_template.Prelude.Outcome.{Returns, returns, Returns-bind}
use linux_c_template.ListHead.{ListHead}
use linux_c_template.Mempool.{
  Memory, State, null, take_block, malloc_slice, cached_slice, alloc_slice, check_magic, run_ctor,
  spin_lock, spin_unlock, construct, alloc,
}
use linux_c_template.Mempool.Shape.{
  Shape-malloc, Shape-OwnBlock, Shape-OwnBlock-null, Shape-first_ne_null, Shape-hand_out,
}
use linux_c_template.Mempool.Invariant.{
  IsFresh, IsOwned, IsPool, IsOwned-locked, run_ctor-OwnBlock, run_ctor-null,
  entries-list_del_first, remove-head,
}
use linux_c_template.Mempool.Free.{free-Freed}

pub List-cases {ℓ} :
    {P : Type ℓ} (l : List ℕ) → ((p : ℕ) (ps : List ℕ) → l ≡ p ∷ ps → P) → (l ≡ [] → P) → P
List-cases [] some_case none_case = none_case refl
List-cases (p ∷ ps) some_case none_case = some_case p ps refl

module _ (lh : ListHead) where
  -- What `alloc_slice` hands out: nothing, or a slice that the caller now holds.
  abbrev pub Sliced : List ℕ → ℕ × State lh.Links → Type 0
  Sliced live (p, s) = ((p ≡ null) × IsOwned lh live s) ⊎ ((p ≢ null) × IsOwned lh (p ∷ live) s)

  module _ {live : List ℕ} (s : State lh.Links) (inv : IsOwned lh live s) where
    take_block-Sliced :
        (answer : Option (ℕ × ℕ))
        → IsFresh answer s.mem
        → (s.pool.max ≡ 0) ⊎ (s.pool.ref < s.pool.max)
        → s.pool.ref + 1 < 2 ^ 64
        → Returns (Sliced live) (take_block answer s)
    unfolding take_block
    take_block-Sliced none fresh below room = returns (inl (refl, inv))
    take_block-Sliced (some (p, w)) fresh below room =
        let small : (s.pool.ref + 1) % 2 ^ 64 ≡ s.pool.ref + 1 = omega arith in
        returns (
          inr (
            fresh.0,
            record {
              shape = rw small (Shape-malloc inv.shape p w fresh.0 fresh.1 below room);
              ctor_own = inv.ctor_own;
              dtor_own = inv.dtor_own;
            },
          ))

    malloc_slice-Sliced :
        (answer : Option (ℕ × ℕ))
        → IsFresh answer s.mem
        → s.pool.ref + 1 < 2 ^ 64
        → Returns (Sliced live) (malloc_slice lh answer s)
    unfolding malloc_slice
    malloc_slice-Sliced answer fresh room =
        let roomy : ltb s.pool.sz 24 ≡ false = ground (arith, inv.shape.roomy) in
        elim (Bool-cases (not (s.pool.max == 0) && leb s.pool.max s.pool.ref)) [
          | inl full ↦ rw full (
              returns (
                inl (
                  refl,
                  record { shape = inv.shape; ctor_own = inv.ctor_own; dtor_own = inv.dtor_own },
                )))
          | inr below ↦ rw (below, roomy) (take_block-Sliced answer fresh (ground arith) room)
        ]

    cached_slice-Sliced :
        (p : ℕ) (ps : List ℕ)
        → lh.entries s.pool.list_free ≡ p ∷ ps
        → Returns (Sliced live) (cached_slice lh s)
    unfolding cached_slice check_magic
    cached_slice-Sliced p ps e =
        let shape = rw e at inv.shape in
        rw (lh.list_first_entry_lem s.pool.list_free p ps e, shape.marked p (ground arith))
          (returns (
            inr (
              Shape-first_ne_null shape,
              record {
                shape =
                    rw (entries-list_del_first lh s.pool.list_free p ps inv.shape.linked e)
                      (Shape-hand_out shape);
                ctor_own = inv.ctor_own;
                dtor_own = inv.dtor_own;
              },
            )))

    pub alloc_slice-Sliced :
        (answer : Option (ℕ × ℕ))
        → IsFresh answer s.mem
        → s.pool.ref + 1 < 2 ^ 64
        → Returns (Sliced live) (alloc_slice lh answer s)
    unfolding alloc_slice
    alloc_slice-Sliced answer fresh room = elim (Bool-cases (lh.list_empty s.pool.list_free)) [
      | inl e ↦ rw e (malloc_slice-Sliced answer fresh room)
      | inr more ↦ rw more (
          List-cases (lh.entries s.pool.list_free) cached_slice-Sliced
            λ e. absurd (false≢true (sym more ∙ (lh.list_empty_iff s.pool.list_free).1 e)))
    ]

-- What `mempool_alloc` returns: `NULL` and the pool as its users know it, or a slice that was not
-- in use and now is.
abbrev pub Allocated : (lh : ListHead) → List ℕ → ℕ × State lh.Links → Type 0
Allocated lh live (p, s) =
    ((p ≡ null) × IsPool lh live s) ⊎ ((p ≢ null) × (p ∉ live) × IsPool lh (p ∷ live) s)

module _ (lh : ListHead) {live : List ℕ} where
  construct-live :
      (s : State lh.Links) (p : ℕ)
      → IsOwned lh (p ∷ live) s
      → s.pool.locked ≡ false
      → p ≢ null
      → Returns (Allocated lh live) (construct lh p s)
  unfolding construct
  construct-live s p inv unlocked ne = elim (Bool-cases (run_ctor s.pool.ctor p s.mem).0) [
    | inl rejects ↦ rw rejects (
        Returns-bind (free-Freed lh (record s { mem = mem' }) p made unlocked (ground arith))
          λ s' f. returns (inl (refl, rw (remove-head p live) at f.pool)))
    | inr accepts ↦
        rw accepts
          (returns (inr (ne, inv.shape.apart.0, record { owned = made; unlocked = unlocked })))
  ]
    where
      mem' : Memory
      mem' = (run_ctor s.pool.ctor p s.mem).1

      made : IsOwned lh (p ∷ live) (record s { mem = mem' })
      made = record {
        shape =
            Shape-OwnBlock inv.shape p (ground arith)
              (run_ctor-OwnBlock s.pool.ctor p s.mem inv.ctor_own);
        ctor_own = inv.ctor_own;
        dtor_own = inv.dtor_own;
      }

  construct-null :
      (s : State lh.Links)
      → IsOwned lh live s
      → s.pool.locked ≡ false
      → Returns (Allocated lh live) (construct lh null s)
  unfolding construct
  construct-null s inv unlocked =
      let own = run_ctor-OwnBlock s.pool.ctor null s.mem inv.ctor_own in
      rw (run_ctor-null s.pool.ctor s.mem inv.ctor_own) (
        returns (
          inl (
            refl,
            record {
              owned = record {
                shape = Shape-OwnBlock-null inv.shape own;
                ctor_own = inv.ctor_own;
                dtor_own = inv.dtor_own;
              };
              unlocked = unlocked;
            },
          )))

  construct-Allocated :
      (s : State lh.Links) (p : ℕ)
      → Sliced lh live (p, s)
      → s.pool.locked ≡ false
      → Returns (Allocated lh live) (construct lh p s)
  construct-Allocated s p (inl (e, inv)) unlocked = rw e (construct-null s inv unlocked)
  construct-Allocated s p (inr (ne, inv)) unlocked = construct-live s p inv unlocked ne

  Sliced-spin_unlock :
      (p : ℕ) (s : State lh.Links) → Sliced lh live (p, s) → Sliced lh live (p, spin_unlock s)
  unfolding spin_unlock
  Sliced-spin_unlock p s (inl (e, inv)) = inl (e, IsOwned-locked lh s false inv)
  Sliced-spin_unlock p s (inr (ne, inv)) = inr (ne, IsOwned-locked lh s false inv)

  -- `mempool_alloc` on a well formed pool returns `NULL` and leaves the slices in use as they are, or
  -- returns a slice that was not in use; either way the pool stays well formed and its lock is free.
  -- `malloc` may fail or give a new block, fewer than 2^64 - 1 slices are counted, the callbacks keep
  -- to their own slice, and `ctor` accepts `NULL`.
  pub alloc-Allocated :
      (answer : Option (ℕ × ℕ)) (s : State lh.Links)
      → IsPool lh live s
      → IsFresh answer s.mem
      → s.pool.ref + 1 < 2 ^ 64
      → Returns (Allocated lh live) (alloc lh answer s)
  unfolding alloc spin_lock
  alloc-Allocated answer s inv fresh room = rw inv.unlocked (
      Returns-bind
        (alloc_slice-Sliced lh (record s { pool = record s.pool { locked = true } })
          (IsOwned-locked lh s true inv.owned) answer fresh room)
        λ (p, s') got. construct-Allocated (spin_unlock s') p (Sliced-spin_unlock p s' got) refl)
