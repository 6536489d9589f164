-- ===== src/Mempool/Threads/Keeps.antt =====
-- Whatever a thread in template-v1/src/mempool/mempool.c does next, what is shared stays in order.
use linux_c_template.Prelude.{ℕ, ◌≡◌, ◌≢◌, refl, Bool, true, false, List, ◌∷◌, arith, ap, subst}
use linux_c_template.Prelude.Lists.{remove}
use linux_c_template.Prelude.Outcome.{ok}
use linux_c_template.ListHead.{ListHead}
use linux_c_template.Mempool.{Memory, State, null, run_dtor, run_ctor, spin_lock}
use linux_c_template.Mempool.Shape.{OwnBlock}
use linux_c_template.Mempool.Invariant.{IsOwned, run_ctor-OwnBlock, run_ctor-null}
use linux_c_template.Mempool.Threads.{
  Caller, outside, allocs, takes, took, builds, frees, links, recycles, empties, leaves, Act,
}
use linux_c_template.Mempool.Threads.Steps.{spin_lock-ok, set_magic-ok}
use linux_c_template.Mempool.Threads.Holders.{inside, Guarded}
use linux_c_template.Mempool.Threads.Acts.{moves-Guarded, locks-Guarded, unlocks-Guarded, Alike}
use linux_c_template.Mempool.Threads.Slices.{
  calls_free-Guarded, takes-Guarded, builds-Guarded, accepts-Guarded, rejects-Guarded,
  marks-Guarded, links-Guarded, empties-Guarded,
}

module _ (lh : ListHead) {live : List ℕ} {s : State lh.Links} where
  pub ctor-own :
      (p : ℕ) (r : Bool × Memory)
      → IsOwned lh live s
      → run_ctor s.pool.ctor p s.mem ≡ r
      → OwnBlock p s.mem r.1
  ctor-own p r o e =
      subst (λ r. OwnBlock p s.mem r.1) e (run_ctor-OwnBlock s.pool.ctor p s.mem o.ctor_own)

  pub rejected-slice :
      (p : ℕ) (mem' : Memory)
      → IsOwned lh live s
      → run_ctor s.pool.ctor p s.mem ≡ (true, mem')
      → p ≢ null
  rejected-slice p mem' o e z = cc (run_ctor-null s.pool.ctor s.mem o.ctor_own, z, ap (λ r. r.0) e)

module _ (lh : ListHead) {live : List ℕ} {s : State lh.Links} {users : List ℕ}
    {rest : List Caller} where
  locked-Guarded :
      (c d : Caller) (s' : State lh.Links)
      → Alike c d
      → inside c ≡ 0
      → inside d ≡ 1
      → spin_lock s ≡ ok s'
      → Guarded lh live s users (c ∷ rest)
      → Guarded lh live s' users (d ∷ rest)
  locked-Guarded c d s' alike out into e g =
      let (free, same) = spin_lock-ok s s' e in
      subst (λ t. Guarded lh live t users (d ∷ rest)) same
        (locks-Guarded lh c d alike out into free g)

  -- Every step of a thread keeps what is shared in order.
  pub Act-Guarded :
      {c c' : Caller} {s' : State lh.Links} {users' : List ℕ}
      → Act lh s users c s' users' c'
      → Guarded lh live s users (c ∷ rest)
      → (live' : List ℕ) × Guarded lh live' s' users' (c' ∷ rest)
  Act-Guarded Act.call_alloc g = (live, moves-Guarded lh outside allocs (λ x. (refl, refl)) refl g)
  Act-Guarded (Act.call_free p i) g = (live, calls_free-Guarded lh p i g)
  Act-Guarded Act.call_recycle g =
      (live, moves-Guarded lh outside recycles (λ x. (refl, refl)) refl g)
  Act-Guarded (Act.lock_alloc {s'} e) g =
      (live, locked-Guarded allocs takes s' (λ x. (refl, refl)) refl refl e g)
  Act-Guarded (Act.take answer {p} {s'} fresh room e) g =
      takes-Guarded lh answer p s' fresh room e g
  Act-Guarded (Act.unlock_alloc {p}) g =
      (live, unlocks-Guarded lh (took p) (builds p) (λ x. (refl, refl)) refl refl g)
  Act-Guarded (Act.accept {p} {mem'} e) g = (
    live,
    accepts-Guarded lh p (builds-Guarded lh p mem' (ctor-own lh p (false, mem') g.owned e) g),
  )
  Act-Guarded (Act.reject {p} {mem'} e) g = (
    live,
    rejects-Guarded lh p (ground (arith, rejected-slice lh p mem' g.owned e))
        (builds-Guarded lh p mem' (ctor-own lh p (true, mem') g.owned e) g),
  )
  Act-Guarded (Act.mark {p} {s'} e) g = (
    live,
    subst (λ t. Guarded lh live t users (frees p ∷ rest))
        (set_magic-ok p (record s { mem = run_dtor s.pool.dtor p s.mem }) s' e)
        (marks-Guarded lh p g),
  )
  Act-Guarded (Act.lock_free {p} {s'} e) g =
      (live, locked-Guarded (frees p) (links p) s' (λ x. (refl, refl)) refl refl e g)
  Act-Guarded (Act.link {p}) g = (remove p live, links-Guarded lh p g)
  Act-Guarded (Act.lock_recycle {s'} e) g =
      (live, locked-Guarded recycles empties s' (λ x. (refl, refl)) refl refl e g)
  Act-Guarded (Act.empty {s'} e) g = (live, empties-Guarded lh s' e g)
  Act-Guarded Act.unlock g =
      (live, unlocks-Guarded lh leaves outside (λ x. (refl, refl)) refl refl g)
