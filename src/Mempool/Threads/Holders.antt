-- ===== src/Mempool/Threads/Holders.antt =====
-- What the threads in template-v1/src/mempool/mempool.c hold: slices, and the lock.
use linux_c_template.Prelude.{
  ℕ, ◌+◌, ◌≡◌, ◌≢◌, refl, some, List, [], ◌∷◌, ◌++◌, arith, ap, sym, ◌∙◌,
}
use linux_c_template.Prelude.Tests.{◌==◌, if◌then◌else◌}
use linux_c_template.Prelude.Lists.{count}
use linux_c_template.ListHead.{ListHead}
use linux_c_template.Mempool.{State, null, mempool_slice_magic}
use linux_c_template.Mempool.Invariant.{IsOwned}
use linux_c_template.Mempool.Threads.{
  Caller, takes, took, builds, drops, frees, links, empties, leaves,
}

-- How often a thread holds the slice `x`.
abbrev pub holds : ℕ → Caller → ℕ
holds x (took p) = if p == null then 0 else if x == p then 1 else 0
holds x (builds p) = if p == null then 0 else if x == p then 1 else 0
holds x (drops p) = if x == p then 1 else 0
holds x (frees p) = if x == p then 1 else 0
holds x (links p) = if x == p then 1 else 0
holds x _ = 0

-- Whether it has marked the slice `x` and not linked it yet.
abbrev pub has_marked : ℕ → Caller → ℕ
has_marked x (frees p) = if x == p then 1 else 0
has_marked x (links p) = if x == p then 1 else 0
has_marked x _ = 0

-- Whether it is between `pthread_spin_lock` and `pthread_spin_unlock`.
abbrev pub inside : Caller → ℕ
inside takes = 1
inside (took _) = 1
inside (links _) = 1
inside empties = 1
inside leaves = 1
inside _ = 0

abbrev pub total : (Caller → ℕ) → List Caller → ℕ
total f [] = 0
total f (c ∷ cs) = f c + total f cs

total-append :
    (f : Caller → ℕ) (before : List Caller) (c : Caller) (after : List Caller)
    → total f (before ++ c ∷ after) ≡ total f (c ∷ before ++ after)
total-append f [] c after = refl
total-append f (d ∷ before) c after = omega (arith, total-append f before c after)

-- The slices in use are those of the users and of the threads, each once; one thread at most has the
-- lock; and a slice that is on its way into the cache has the magic word.
pub record Guarded (lh : ListHead) (live : List ℕ) (s : State lh.Links) (users : List ℕ)
    (callers : List Caller) : Type 0 where
  pub owned : IsOwned lh live s
  pub same : (x : ℕ) → count x live ≡ count x users + total (holds x) callers
  pub exclusive : total inside callers ≡ (if s.pool.locked then 1 else 0)
  pub marked : (x : ℕ) → total (has_marked x) callers ≢ 0 → s.mem x ≡ some mempool_slice_magic

module _ (lh : ListHead) {live : List ℕ} {s : State lh.Links} {users : List ℕ}
    (before : List Caller) {c : Caller} (after : List Caller) where
  pub Guarded-front :
      Guarded lh live s users (before ++ c ∷ after) → Guarded lh live s users (c ∷ before ++ after)
  Guarded-front g = record {
    owned = g.owned;
    same = λ x. g.same x ∙ ap (λ n. count x users + n) (total-append (holds x) before c after);
    exclusive = sym (total-append inside before c after) ∙ g.exclusive;
    marked = λ x h. g.marked x λ z. h (sym (total-append (has_marked x) before c after) ∙ z);
  }

  pub Guarded-back :
      Guarded lh live s users (c ∷ before ++ after) → Guarded lh live s users (before ++ c ∷ after)
  Guarded-back g = record {
    owned = g.owned;
    same =
        λ x. g.same x ∙ ap (λ n. count x users + n) (sym (total-append (holds x) before c after));
    exclusive = total-append inside before c after ∙ g.exclusive;
    marked = λ x h. g.marked x λ z. h (total-append (has_marked x) before c after ∙ z);
  }
