-- ===== src/Mempool/Threads/Interleaved.antt =====
-- Any number of threads in the calls of template-v1/src/mempool/mempool.c, in any order.
use linux_c_template.Prelude.{
  ℕ, zero, suc, ◌+◌, ◌^◌, ◌<◌, ◌≡◌, ◌≢◌, refl, true, Option, List, ◌∷◌, ◌++◌, arith, inl, inr, ap,
  subst, ◌∙◌,
}
use linux_c_template.Prelude.Tests.{if◌then◌else◌, is_some, Option-cases}
use linux_c_template.Prelude.Lists.{
  ◌∈◌, count, mem-count, count-mem, replicate, Distinct-count, absent-count,
}
use linux_c_template.Prelude.Outcome.{Returns, returns, Returns-mono}
use linux_c_template.ListHead.{ListHead}
use linux_c_template.Mempool.{
  State, null, run_dtor, run_ctor, set_magic, alloc_slice, recycle_unlocked,
}
use linux_c_template.Mempool.Invariant.{IsFresh, IsPool, run_dtor-OwnBlock}
use linux_c_template.Mempool.Alloc.{alloc_slice-Sliced}
use linux_c_template.Mempool.Recycle.{recycle_unlocked-Recycled}
use linux_c_template.Mempool.Threads.{
  Caller, outside, allocs, takes, took, builds, drops, frees, links, recycles, empties, leaves,
  Place, Turn, Turns, acts, writes, at_start, further,
}
use linux_c_template.Mempool.Threads.Holders.{
  holds, has_marked, inside, total, Guarded, Guarded-front, Guarded-back,
}
use linux_c_template.Mempool.Threads.Acts.{writes-Guarded, holds-mem, marked-held}
use linux_c_template.Mempool.Threads.Keeps.{Act-Guarded, rejected-slice}

-- What a thread does next returns: it fails no `BUG_ON`, and writes to no `NULL` and to no block that
-- was given back to `malloc`.
abbrev pub GoesOn : (lh : ListHead) → State lh.Links → Caller → Type 0
GoesOn lh s takes =
    (answer : Option (ℕ × ℕ))
    → IsFresh answer s.mem
    → s.pool.ref + 1 < 2 ^ 64
    → Returns (λ _. Unit {0}) (alloc_slice lh answer s)
GoesOn lh s (builds p) = (run_ctor s.pool.ctor p s.mem).0 ≡ true → p ≢ null
GoesOn lh s (drops p) =
    Returns (λ _. Unit {0}) (set_magic p (record s { mem = run_dtor s.pool.dtor p s.mem }))
GoesOn lh s empties = Returns (λ _. Unit {0}) (recycle_unlocked lh 0 s)
GoesOn lh s _ = Unit

-- What holds between two steps.
pub record Orderly (lh : ListHead) (a : Place lh) : Type 0 where
  pub exclusive : total inside a.callers ≡ (if a.state.pool.locked then 1 else 0)
  pub apart : (x : ℕ) → count x a.users + total (holds x) a.callers < 2
  pub uncached :
      (x : ℕ)
      → x ∈ lh.entries a.state.pool.list_free
      → count x a.users + total (holds x) a.callers ≡ 0
  pub next :
      (before : List Caller) (c : Caller) (after : List Caller)
      → a.callers ≡ before ++ c ∷ after
      → GoesOn lh a.state c

module _ (lh : ListHead) where
  abbrev pub Kept : Place lh → Type 0
  Kept a = (live : List ℕ) × Guarded lh live a.state a.users a.callers

  users-mem :
      {live : List ℕ} {s : State lh.Links} {users : List ℕ} {cs : List Caller}
      (g : Guarded lh live s users cs) (p : ℕ)
      → p ∈ users
      → (p ∈ live) × (total (has_marked p) cs ≡ 0)
  users-mem {live} {s} {users} {cs} g p i =
      let most = Distinct-count p live g.owned.shape.apart in
      let less = marked-held p cs in
      let mine = mem-count p users i in
      (count-mem p live (λ z. mine (omega (arith, g.same p, z))), omega (arith, g.same p))

  Turn-Kept : {a b : Place lh} → Kept a → Turn lh a b → Kept b
  Turn-Kept {a} (live, g) (acts before {c} {c'} after {s'} {users'} e act) =
      let at : Guarded lh live a.state a.users (before ++ c ∷ after) =
        subst (λ cs. Guarded lh live a.state a.users cs) e g in
      let (live', g') = Act-Guarded lh act (Guarded-front lh before after at) in
      (live', Guarded-back lh before after g')
  Turn-Kept {a} (live, g) (writes p mem' i own) =
      let (m, unmarked) = users-mem g p i in (live, writes-Guarded lh p mem' g m unmarked own)

  pub Turns-Kept : {a b : Place lh} → Kept a → Turns lh a b → Kept b
  Turns-Kept k at_start = k
  Turns-Kept k (further r t) = Turn-Kept (Turns-Kept k r) t

  pub Guarded-goes :
      {live : List ℕ} {s : State lh.Links} {users : List ℕ} (c : Caller) {rest : List Caller}
      → Guarded lh live s users (c ∷ rest)
      → GoesOn lh s c
  unfolding set_magic
  Guarded-goes {s} takes g = λ answer fresh room.
      Returns-mono (alloc_slice-Sliced lh s g.owned answer fresh room) λ _ _. tt
  Guarded-goes {s} (builds p) g =
      λ e. rejected-slice lh p _ g.owned (ap (λ b. (b, (run_ctor s.pool.ctor p s.mem).1)) e)
  Guarded-goes {s} (drops p) g =
      let (i, _) = holds-mem lh p (drops p) (ground arith) g in
      let done = run_dtor-OwnBlock s.pool.dtor p s.mem g.owned.dtor_own in
      elim (Option-cases (run_dtor s.pool.dtor p s.mem p)) [
        | inl gone ↦ cc (done.still, ap is_some gone, g.owned.shape.held p i)
        | inr (w, there) ↦ rw (there, set_magic) (returns tt)
      ]
  Guarded-goes {s} empties g = Returns-mono (recycle_unlocked-Recycled lh 0 s g.owned) λ _ _. tt
  Guarded-goes outside g = tt
  Guarded-goes allocs g = tt
  Guarded-goes (took p) g = tt
  Guarded-goes (frees p) g = tt
  Guarded-goes (links p) g = tt
  Guarded-goes recycles g = tt
  Guarded-goes leaves g = tt

  idle :
      (n x : ℕ)
      → (total (holds x) (replicate n outside) ≡ 0)
        × (total (has_marked x) (replicate n outside) ≡ 0)
        × (total inside (replicate n outside) ≡ 0)
  idle zero x = (refl, refl, refl)
  idle (suc n) x = let (a, b, c) = idle n x in (omega arith, omega arith, omega arith)

  -- The pool before any of `n` threads calls, when they hold the slices `live`.
  abbrev pub before_calls : List ℕ → State lh.Links → ℕ → Place lh
  before_calls live s n = record { state = s; users = live; callers = replicate n outside }

  pub before_calls-Kept :
      (live : List ℕ) (s : State lh.Links) (n : ℕ) → IsPool lh live s → Kept (before_calls live s n)
  before_calls-Kept live s n pool = (
    live,
    record {
      owned = pool.owned;
      same = λ x. omega (arith, (idle n x).0);
      exclusive = (idle n 0).2 ∙ rw pool.unlocked refl;
      marked = λ x h. absurd (h (idle n x).1);
    },
  )

  Kept-Orderly : {a : Place lh} → Kept a → Orderly lh a
  Kept-Orderly {a} (live, g) = record {
    exclusive = g.exclusive;
    apart = λ x. omega (arith, g.same x, Distinct-count x live g.owned.shape.apart);
    uncached = λ x i. ground (arith, g.same x, g.owned.shape.separate x i, absent-count x live);
    next = λ before c after e.
        Guarded-goes c
          (Guarded-front lh before after (subst (λ cs. Guarded lh live a.state a.users cs) e g));
  }

  -- From a well formed pool on, whatever the threads do, in any order: one of them at most is between
  -- `pthread_spin_lock` and `pthread_spin_unlock`, no slice is with two of them or with one and in the
  -- cache, and what each does next returns. Writes keep to slices that their writer holds, `malloc`
  -- gives new blocks, fewer than 2^64 - 1 slices are counted
  -- when it is asked, the callbacks keep to their slice, and `ctor` accepts `NULL`.
  pub Turns-Orderly :
      {a : Place lh} (live : List ℕ) (s : State lh.Links) (n : ℕ)
      → IsPool lh live s
      → Turns lh (before_calls live s n) a
      → Orderly lh a
  Turns-Orderly live s n pool r = Kept-Orderly (Turns-Kept (before_calls-Kept live s n pool) r)
