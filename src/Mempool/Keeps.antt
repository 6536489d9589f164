-- ===== src/Mempool/Keeps.antt =====
-- What no call of template-v1/src/mempool/mempool.c changes: the limit of the pool.
use linux_c_template.Prelude.{ℕ, ◌≡◌, true, Option, arith, inl, inr, ◌∙◌}
use linux_c_template.Prelude.Tests.{Bool-cases}
use linux_c_template.Prelude.Outcome.{Outcome, ok, aborted, fault, deadlocked, out_of_fuel, ◌>>=◌}
use linux_c_template.ListHead.{ListHead}
use linux_c_template.Mempool.{
  State, free, set_magic, check_magic, run_ctor, spin_lock, spin_unlock, take_block, malloc_slice,
  cached_slice, alloc_slice, construct, alloc,
}

module _ {Links : Type 0} where
  abbrev Keeps : State Links → Outcome (State Links) → Type 0
  Keeps s (ok t) = t.pool.max ≡ s.pool.max
  Keeps s _ = Unit

  abbrev KeepsWith : State Links → Outcome (ℕ × State Links) → Type 0
  KeepsWith s (ok (p, t)) = t.pool.max ≡ s.pool.max
  KeepsWith s _ = Unit

module _ (lh : ListHead) where
  free-Keeps : (p : ℕ) (s : State lh.Links) → Keeps s (free lh p s)
  unfolding free set_magic spin_lock spin_unlock
  free-Keeps p s = ground arith

  alloc_slice-Keeps :
      (answer : Option (ℕ × ℕ)) (s : State lh.Links) → KeepsWith s (alloc_slice lh answer s)
  unfolding alloc_slice malloc_slice cached_slice take_block check_magic
  alloc_slice-Keeps answer s = ground arith

  construct-Keeps : (p : ℕ) (s : State lh.Links) → KeepsWith s (construct lh p s)
  unfolding construct
  construct-Keeps p s =
      ground (arith, free-Keeps p (record s { mem = (run_ctor s.pool.ctor p s.mem).1 }))

  alloc-Keeps : (answer : Option (ℕ × ℕ)) (s : State lh.Links) → KeepsWith s (alloc lh answer s)
  unfolding alloc spin_lock spin_unlock
  alloc-Keeps answer s = elim (Bool-cases s.pool.locked) [
    | inl e ↦ rw e tt
    | inr e ↦ rw e (go (alloc_slice lh answer held) (alloc_slice-Keeps answer held))
  ]
    where
      held : State lh.Links
      held = record s { pool = record s.pool { locked = true } }

      weaker :
          (t : State lh.Links) (o : Outcome (ℕ × State lh.Links))
          → t.pool.max ≡ s.pool.max
          → KeepsWith t o
          → KeepsWith s o
      weaker t (ok (p, u)) e k = k ∙ e
      weaker t aborted e k = tt
      weaker t fault e k = tt
      weaker t deadlocked e k = tt
      weaker t out_of_fuel e k = tt

      go :
          (o : Outcome (ℕ × State lh.Links))
          → KeepsWith held o
          → KeepsWith s (o >>= λ (p, t). construct lh p (spin_unlock t))
      go (ok (p, t)) k =
          weaker (spin_unlock t) (construct lh p (spin_unlock t)) k
            (construct-Keeps p (spin_unlock t))
      go aborted k = tt
      go fault k = tt
      go deadlocked k = tt
      go out_of_fuel k = tt

  pub free-max : (p : ℕ) (s t : State lh.Links) → free lh p s ≡ ok t → t.pool.max ≡ s.pool.max
  free-max p s t e = rw e at (free-Keeps p s)

  pub alloc-max :
      (answer : Option (ℕ × ℕ)) (s : State lh.Links) (r : ℕ × State lh.Links)
      → alloc lh answer s ≡ ok r
      → r.1.pool.max ≡ s.pool.max
  alloc-max answer s r e = rw e at (alloc-Keeps answer s)
