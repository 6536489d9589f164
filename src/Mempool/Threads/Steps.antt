-- ===== src/Mempool/Threads/Steps.antt =====
-- What the steps of template-v1/src/mempool/mempool.c leave alone: the lock, and the blocks of others.
use linux_c_template.Prelude.{
  ℕ, ◌+◌, ◌-◌, ◌^◌, ◌≡◌, refl, Bool, true, false, Option, none, some, List, [], ◌∷◌, arith, inl,
  inr,
}
use linux_c_template.Prelude.Tests.{Bool-cases}
use linux_c_template.Prelude.Lists.{◌∉◌}
use linux_c_template.Prelude.Outcome.{Outcome, ok}
use linux_c_template.ListHead.{ListHead}
use linux_c_template.Mempool.{
  State, mempool_slice_magic, write, u64, set_magic, check_magic, spin_lock, take_block,
  malloc_slice, cached_slice, alloc_slice, free_slice, recycle_loop, recycle_unlocked,
}
use linux_c_template.Mempool.Invariant.{IsFresh}

module _ {Links : Type 0} where
  pub spin_lock-ok :
      (s s' : State Links)
      → spin_lock s ≡ ok s'
      → (s.pool.locked ≡ false) × (record s { pool = record s.pool { locked = true } } ≡ s')
  unfolding spin_lock
  spin_lock-ok s s' e = ground arith

  pub spin_lock-free :
      (s : State Links)
      → s.pool.locked ≡ false
      → spin_lock s ≡ ok (record s { pool = record s.pool { locked = true } })
  unfolding spin_lock
  spin_lock-free s e = rw e refl

  pub set_magic-ok :
      (p : ℕ) (s s' : State Links)
      → set_magic p s ≡ ok s'
      → (record s { mem = write s.mem p (some mempool_slice_magic) } ≡ s')
  unfolding set_magic
  set_magic-ok p s s' e = ground arith

module _ (lh : ListHead) where
  -- The lock and the word of `q` are as before.
  abbrev Others : ℕ → ℕ → Bool → Outcome (ℕ × State lh.Links) → Type 0
  Others q w b (ok (p, t)) = (t.pool.locked ≡ b) × (t.mem q ≡ some w)
  Others q w b _ = Unit

  alloc_slice-Others :
      (answer : Option (ℕ × ℕ)) (s : State lh.Links) (q w : ℕ)
      → IsFresh answer s.mem
      → s.mem q ≡ some w
      → Others q w s.pool.locked (alloc_slice lh answer s)
  unfolding alloc_slice malloc_slice cached_slice take_block check_magic write
  alloc_slice-Others none s q w fresh e = ground arith
  alloc_slice-Others (some (p, v)) s q w fresh e = ground arith

  pub alloc_slice-others :
      (answer : Option (ℕ × ℕ)) (s : State lh.Links) (r : ℕ × State lh.Links) (q w : ℕ)
      → IsFresh answer s.mem
      → s.mem q ≡ some w
      → alloc_slice lh answer s ≡ ok r
      → r.1.mem q ≡ some w
  alloc_slice-others answer s r q w fresh e f =
      (rw f at (alloc_slice-Others answer s q w fresh e)).1

  abbrev Locking : Bool → Outcome (ℕ × State lh.Links) → Type 0
  Locking b (ok (p, t)) = t.pool.locked ≡ b
  Locking b _ = Unit

  alloc_slice-Locking :
      (answer : Option (ℕ × ℕ)) (s : State lh.Links)
      → Locking s.pool.locked (alloc_slice lh answer s)
  unfolding alloc_slice malloc_slice cached_slice take_block check_magic
  alloc_slice-Locking answer s = ground arith

  pub alloc_slice-locked :
      (answer : Option (ℕ × ℕ)) (s : State lh.Links) (r : ℕ × State lh.Links)
      → alloc_slice lh answer s ≡ ok r
      → r.1.pool.locked ≡ s.pool.locked
  alloc_slice-locked answer s r f = rw f at (alloc_slice-Locking answer s)

  -- The word of `q` is `w`.
  abbrev Word : ℕ → Option ℕ → Outcome (State lh.Links) → Type 0
  Word q w (ok t) = t.mem q ≡ w
  Word q w _ = Unit

  recycle_loop-Word :
      (ps : List ℕ) (s : State lh.Links) (q : ℕ)
      → q ∉ ps
      → Word q (s.mem q) (recycle_loop lh ps 0 s)
  unfolding recycle_loop free_slice check_magic write
  recycle_loop-Word [] s q out = refl
  recycle_loop-Word (p ∷ ps) s q out =
      let next : State lh.Links = record {
        pool = record s.pool {
          list_free = lh.list_del p s.pool.list_free;
          ref = u64 (s.pool.ref + 2 ^ 64 - 1);
        };
        mem = write s.mem p none;
      } in
      ground (arith, recycle_loop-Word ps next q)

  pub recycle_unlocked-word :
      (s t : State lh.Links) (q : ℕ)
      → q ∉ lh.entries s.pool.list_free
      → recycle_unlocked lh 0 s ≡ ok t
      → t.mem q ≡ s.mem q
  unfolding recycle_unlocked
  recycle_unlocked-word s t q out e = elim (Bool-cases (lh.list_empty s.pool.list_free)) [
    | inl nothing ↦ let same = rw nothing at e in ground arith
    | inr more ↦ rw (rw more at e) at (recycle_loop-Word (lh.entries s.pool.list_free) s q out)
  ]
