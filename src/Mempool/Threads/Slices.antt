-- ===== src/Mempool/Threads/Slices.antt =====
-- What each step on a slice in template-v1/src/mempool/mempool.c does to what the threads share.
use linux_c_template.Prelude.{
  ℕ, ◌+◌, ◌^◌, ◌<◌, ◌≡◌, ◌≢◌, refl, false, Option, some, List, ◌∷◌, arith, inl, inr, subst, ◌∙◌,
}
use linux_c_template.Prelude.Tests.{◌==◌, if◌then◌else◌, Bool-cases}
use linux_c_template.Prelude.Lists.{◌∈◌, ◌∉◌, remove, count-mem, count-remove}
use linux_c_template.Prelude.Outcome.{ok, Returns-result}
use linux_c_template.ListHead.{ListHead}
use linux_c_template.Mempool.{
  Memory, State, null, mempool_slice_magic, write, run_dtor, alloc_slice, recycle_unlocked,
}
use linux_c_template.Mempool.Shape.{OwnBlock, Shape-link}
use linux_c_template.Mempool.Invariant.{IsFresh, run_dtor-OwnBlock}
use linux_c_template.Mempool.Alloc.{Sliced, alloc_slice-Sliced}
use linux_c_template.Mempool.Recycle.{recycle_unlocked-Recycled}
use linux_c_template.Mempool.Threads.{
  Caller, outside, takes, took, builds, drops, frees, links, empties, leaves,
}
use linux_c_template.Mempool.Threads.Steps.{
  alloc_slice-others, alloc_slice-locked, recycle_unlocked-word,
}
use linux_c_template.Mempool.Threads.Holders.{has_marked, inside, total, Guarded}
use linux_c_template.Mempool.Threads.Acts.{
  writes-Guarded, writes_null-Guarded, holds-mem, marked-held,
}

module _ (lh : ListHead) {live : List ℕ} {s : State lh.Links} {users : List ℕ}
    {rest : List Caller} where
  pub calls_free-Guarded :
      (p : ℕ)
      → p ∈ users
      → Guarded lh live s users (outside ∷ rest)
      → Guarded lh live s (remove p users) (drops p ∷ rest)
  calls_free-Guarded p i g = record {
    owned = g.owned;
    same = λ x. omega (arith, g.same x, count-remove p x users i);
    exclusive = g.exclusive;
    marked = g.marked;
  }

  pub takes-Guarded :
      (answer : Option (ℕ × ℕ)) (p : ℕ) (s' : State lh.Links)
      → IsFresh answer s.mem
      → s.pool.ref + 1 < 2 ^ 64
      → alloc_slice lh answer s ≡ ok (p, s')
      → Guarded lh live s users (takes ∷ rest)
      → (live' : List ℕ) × Guarded lh live' s' users (took p ∷ rest)
  takes-Guarded answer p s' fresh room e g =
      go (Returns-result (alloc_slice-Sliced lh s g.owned answer fresh room) e)
    where
      exclusive : total inside (took p ∷ rest) ≡ (if s'.pool.locked then 1 else 0)
      exclusive = g.exclusive ∙ rw (alloc_slice-locked lh answer s (p, s') e) refl

      marked :
          (x : ℕ) → total (has_marked x) (took p ∷ rest) ≢ 0 → s'.mem x ≡ some mempool_slice_magic
      marked x h =
          alloc_slice-others lh answer s (p, s') x mempool_slice_magic fresh (g.marked x h) e

      go : Sliced lh live (p, s') → (live' : List ℕ) × Guarded lh live' s' users (took p ∷ rest)
      go (inl (z, owned)) = (
        live,
        record {
          owned = owned;
          same = λ x. g.same x ∙ rw z refl;
          exclusive = exclusive;
          marked = marked;
        },
      )
      go (inr (ne, owned)) =
          let given : (p == null) ≡ false = ground arith in
          (
            p ∷ live,
            record {
              owned = owned;
              same = λ x. ground (arith, g.same x);
              exclusive = exclusive;
              marked = marked;
            },
          )

  pub builds-Guarded :
      (p : ℕ) (mem' : Memory)
      → OwnBlock p s.mem mem'
      → Guarded lh live s users (builds p ∷ rest)
      → Guarded lh live (record s { mem = mem' }) users (builds p ∷ rest)
  builds-Guarded p mem' own g = elim (Bool-cases (p == null)) [
    | inl z ↦
        let e : p ≡ null = ground arith in
        writes_null-Guarded lh mem' g (subst (λ q. OwnBlock q s.mem mem') e own)
    | inr ne ↦
        let (i, unmarked) = holds-mem lh p (builds p) (ground arith) g in
        writes-Guarded lh p mem' g i (omega (arith, unmarked)) own
  ]

  pub accepts-Guarded :
      (p : ℕ)
      → Guarded lh live s users (builds p ∷ rest)
      → Guarded lh live s (if p == null then users else p ∷ users) (outside ∷ rest)
  accepts-Guarded p g = record {
    owned = g.owned;
    same = λ x. ground (arith, g.same x);
    exclusive = g.exclusive;
    marked = g.marked;
  }

  pub rejects-Guarded :
      (p : ℕ)
      → (p == null) ≡ false
      → Guarded lh live s users (builds p ∷ rest)
      → Guarded lh live s users (drops p ∷ rest)
  rejects-Guarded p ne g = record {
    owned = g.owned;
    same = λ x. ground (arith, g.same x);
    exclusive = g.exclusive;
    marked = g.marked;
  }

  pub marks-Guarded :
      (p : ℕ)
      → Guarded lh live s users (drops p ∷ rest)
      → Guarded lh live
          (record s { mem = write (run_dtor s.pool.dtor p s.mem) p (some mempool_slice_magic) })
          users
          (frees p ∷ rest)
  unfolding write
  marks-Guarded p g = record {
    owned = written.owned;
    same = g.same;
    exclusive = g.exclusive;
    marked = λ x h. elim (Bool-cases (x == p)) [
      | inl e ↦ ground arith
      | inr e ↦ written.marked x λ z. h (ground arith)
    ];
  }
    where
      own : OwnBlock p s.mem (write (run_dtor s.pool.dtor p s.mem) p (some mempool_slice_magic))
      own =
          let (i, _) = holds-mem lh p (drops p) (ground arith) g in
          let done = run_dtor-OwnBlock s.pool.dtor p s.mem g.owned.dtor_own in
          record {
            others = λ q ne. ground (arith, done.others q);
            still = ground (arith, g.owned.shape.held p i);
          }

      written :
          Guarded lh live
            (record s { mem = write (run_dtor s.pool.dtor p s.mem) p (some mempool_slice_magic) })
            users
            (drops p ∷ rest)
      written =
          let (i, unmarked) = holds-mem lh p (drops p) (ground arith) g in
          writes-Guarded lh p _ g i (omega (arith, unmarked)) own

  pub links-Guarded :
      (p : ℕ)
      → Guarded lh live s users (links p ∷ rest)
      → Guarded lh
          (remove p live)
          (record s { pool = record s.pool { list_free = lh.list_add p s.pool.list_free } })
          users
          (leaves ∷ rest)
  links-Guarded p g =
      let (i, _) = holds-mem lh p (links p) (ground arith) g in
      let linked = Shape-link g.owned.shape p i (g.marked p (ground arith)) in
      record {
        owned = record {
          shape = rw (lh.entries-list_add p s.pool.list_free linked.linked.0) linked;
          ctor_own = g.owned.ctor_own;
          dtor_own = g.owned.dtor_own;
        };
        same = λ x. ground (arith, g.same x, count-remove p x live i);
        exclusive = g.exclusive;
        marked = λ x h. g.marked x λ z. h (omega arith);
      }

  pub empties-Guarded :
      (s' : State lh.Links)
      → recycle_unlocked lh 0 s ≡ ok s'
      → Guarded lh live s users (empties ∷ rest)
      → Guarded lh live s' users (leaves ∷ rest)
  empties-Guarded s' e g =
      let r = Returns-result (recycle_unlocked-Recycled lh 0 s g.owned) e in
      record {
        owned = r.owned;
        same = g.same;
        exclusive = g.exclusive ∙ rw r.lock refl;
        marked = λ x h.
            recycle_unlocked-word lh s s' x (uncached x (λ z. h (omega (arith, z)))) e
            ∙ g.marked x h;
      }
    where
      uncached : (x : ℕ) → total (has_marked x) rest ≢ 0 → x ∉ lh.entries s.pool.list_free
      uncached x h =
          let i : x ∈ live =
            count-mem x live (λ z. h (omega (arith, g.same x, marked-held x rest))) in
          ground (arith, g.owned.shape.separate x)
