-- ===== src/Mempool/Free.antt =====
-- `mempool_free` of template-v1/src/mempool/mempool.c.
use linux_c_template.Prelude.{ℕ, ◌≡◌, refl, true, false, Option, none, some, List, ◌∷◌}
use linux_c_template.Prelude.Tests.{is_some}
use linux_c_template.Prelude.Lists.{◌∈◌, remove}
use linux_c_template.Prelude.Outcome.{Returns, returns}
use linux_c_template.ListHead.{ListHead}
use linux_c_template.Mempool.{State, free, set_magic}
use linux_c_template.Mempool.Shape.{Shape-give_back, Shape-OwnBlock}
use linux_c_template.Mempool.Invariant.{IsOwned, IsPool, run_dtor-OwnBlock}

some-of_is_some {ℓ} : {A : Type ℓ} (o : Option A) → is_some o ≡ true → (a : A) × (o ≡ some a)
some-of_is_some none h = cc
some-of_is_some (some a) h = (a, refl)

-- What `mempool_free` of `p` leaves: the slice is the first to be handed out again.
pub record Freed (lh : ListHead) (live : List ℕ) (p : ℕ) (s s' : State lh.Links) : Type 0 where
  pub pool : IsPool lh (remove p live) s'
  pub first : lh.entries s'.pool.list_free ≡ p ∷ lh.entries s.pool.list_free
  pub kept : s'.pool.ref ≡ s.pool.ref
  pub same_ctor : s'.pool.ctor ≡ s.pool.ctor

module _ (lh : ListHead) {live : List ℕ} (s : State lh.Links) (p : ℕ) where
  -- In a well formed pool whose lock is free and whose callbacks keep to their own slice,
  -- `mempool_free` of a slice that a user holds returns. The slice goes to the front of the cache, the
  -- pool stays well formed, and its lock is free.
  pub free-Freed :
      IsOwned lh live s
      → s.pool.locked ≡ false
      → p ∈ live
      → Returns (Freed lh live p s) (free lh p s)
  unfolding free
  free-Freed inv unlocked i =
      let own = run_dtor-OwnBlock s.pool.dtor p s.mem inv.dtor_own in
      let destroyed = Shape-OwnBlock inv.shape p i own in
      let (w, there) = some-of_is_some _ (destroyed.held p i) in
      let given = Shape-give_back destroyed p i in
      let linked = lh.entries-list_add p s.pool.list_free given.linked.0 in
      rw (there, set_magic, unlocked)
        (returns (record {
          pool = record {
            owned = record {
              shape = rw linked given;
              ctor_own = inv.ctor_own;
              dtor_own = inv.dtor_own;
            };
            unlocked = refl;
          };
          first = linked;
          kept = refl;
          same_ctor = refl;
        }))
