-- ===== src/Mempool/Threads/Progress.antt =====
-- The threads in template-v1/src/mempool/mempool.c do not wait for each other for ever.
use linux_c_template.Prelude.{
  ℕ, ◌+◌, ◌^◌, ◌<◌, ◌≡◌, ◌≢◌, ◌⊎◌, refl, Bool, true, false, none, List, [], ◌∷◌, ◌++◌, arith, inl,
  inr, ap, subst, ◌∙◌,
}
use linux_c_template.Prelude.Tests.{◌==◌, Bool-cases}
use linux_c_template.Prelude.Outcome.{Outcome, ok, Returns, returns}
use linux_c_template.ListHead.{ListHead}
use linux_c_template.Mempool.{Memory, State, run_ctor}
use linux_c_template.Mempool.Invariant.{IsPool}
use linux_c_template.Mempool.Threads.{
  Caller, outside, allocs, takes, took, builds, drops, frees, links, recycles, empties, leaves, Act,
  Place, Turns,
}
use linux_c_template.Mempool.Threads.Steps.{spin_lock-free}
use linux_c_template.Mempool.Threads.Holders.{inside, total, Guarded, Guarded-front}
use linux_c_template.Mempool.Threads.Interleaved.{
  Guarded-goes, Turns-Kept, before_calls, before_calls-Kept,
}

-- Whether a thread is in a call.
abbrev pub in_call : Caller → ℕ
in_call outside = 0
in_call _ = 1

result {ℓ κ} : {A : Type ℓ} {P : A → Type κ} {r : Outcome A} → Returns P r → (a : A) × (r ≡ ok a)
result (returns {a} p) = (a, refl)

-- A thread that `f` counts.
counted :
    (f : Caller → ℕ) (cs : List Caller)
    → total f cs ≢ 0
    → (before : List Caller) × (c : Caller) × (after : List Caller) × (cs ≡ before ++ c ∷ after)
      × (f c ≢ 0)
counted f [] h = absurd (h refl)
counted f (c ∷ cs) h = elim (Bool-cases (f c == 0)) [
  | inl zero ↦
      let (before, d, after, e, more) = counted f cs (λ z. h (ground arith)) in
      (c ∷ before, d, after, ap (◌∷◌ c) e, more)
  | inr more ↦ ([], c, cs, refl, ground arith)
]

-- A thread that is in a call takes its next step.
pub record Moves (lh : ListHead) (a : Place lh) : Type 0 where
  pub before : List Caller
  pub caller : Caller
  pub after : List Caller
  pub at : a.callers ≡ before ++ caller ∷ after
  pub called : in_call caller ≡ 1
  pub state : State lh.Links
  pub users : List ℕ
  pub caller' : Caller
  pub act : Act lh a.state a.users caller state users caller'

-- What a thread at `c` does next.
abbrev Going : (lh : ListHead) → State lh.Links → List ℕ → Caller → Type 0
Going lh s users c =
    (s' : State lh.Links) × (users' : List ℕ) × (c' : Caller) × Act lh s users c s' users' c'

module _ (lh : ListHead) {s : State lh.Links} {users : List ℕ} where
  builds-Going :
      (p : ℕ) (r : Bool × Memory) → run_ctor s.pool.ctor p s.mem ≡ r → Going lh s users (builds p)
  builds-Going p (false, mem') e = (_, _, _, Act.accept e)
  builds-Going p (true, mem') e = (_, _, _, Act.reject e)

module _ (lh : ListHead) {live : List ℕ} {s : State lh.Links} {users : List ℕ} where
  -- The thread with the lock goes on, and so does one that does not wait for it, or finds it free.
  Guarded-Going :
      (c : Caller) {rest : List Caller}
      → in_call c ≡ 1
      → s.pool.ref + 1 < 2 ^ 64
      → (inside c ≢ 0) ⊎ (s.pool.locked ≡ false)
      → Guarded lh live s users (c ∷ rest)
      → Going lh s users c
  Guarded-Going outside i room turn g = cc
  Guarded-Going allocs i room (inl h) g = absurd (h refl)
  Guarded-Going allocs i room (inr free) g = (_, _, _, Act.lock_alloc (spin_lock-free s free))
  Guarded-Going takes i room turn g =
      let (_, e) = result (Guarded-goes lh takes g none tt room) in
      (_, _, _, Act.take none tt room e)
  Guarded-Going (took p) i room turn g = (_, _, _, Act.unlock_alloc)
  Guarded-Going (builds p) i room turn g = builds-Going lh p (run_ctor s.pool.ctor p s.mem) refl
  Guarded-Going (drops p) i room turn g =
      let (_, e) = result (Guarded-goes lh (drops p) g) in (_, _, _, Act.mark e)
  Guarded-Going (frees p) i room (inl h) g = absurd (h refl)
  Guarded-Going (frees p) i room (inr free) g = (_, _, _, Act.lock_free (spin_lock-free s free))
  Guarded-Going (links p) i room turn g = (_, _, _, Act.link)
  Guarded-Going recycles i room (inl h) g = absurd (h refl)
  Guarded-Going recycles i room (inr free) g = (_, _, _, Act.lock_recycle (spin_lock-free s free))
  Guarded-Going empties i room turn g =
      let (_, e) = result (Guarded-goes lh empties g) in (_, _, _, Act.empty e)
  Guarded-Going leaves i room turn g = (_, _, _, Act.unlock)

module _ (lh : ListHead) where
  called_of_inside : (c : Caller) → inside c ≢ 0 → in_call c ≡ 1
  called_of_inside c h = ground arith

  called_of_counted : (c : Caller) → in_call c ≢ 0 → in_call c ≡ 1
  called_of_counted c h = ground arith

  go_on :
      {a : Place lh} {live : List ℕ}
      → Guarded lh live a.state a.users a.callers
      → a.state.pool.ref + 1 < 2 ^ 64
      → (before : List Caller) (c : Caller) (after : List Caller) → a.callers ≡ before ++ c ∷ after
      → in_call c ≡ 1
      → (inside c ≢ 0) ⊎ (a.state.pool.locked ≡ false)
      → Moves lh a
  go_on {a} {live} g room before c after e called turn =
      let here' =
        Guarded-front lh before after (subst (λ cs. Guarded lh live a.state a.users cs) e g) in
      let (s', users', c', act) = Guarded-Going lh c called room turn here' in
      record {
        before = before;
        caller = c;
        after = after;
        at = e;
        called = called;
        state = s';
        users = users';
        caller' = c';
        act = act;
      }

  -- From a well formed pool on, whose callbacks keep to their slice and whose `ctor` accepts `NULL`, in
  -- whatever place the threads are, as long as one is in a call and fewer
  -- than 2^64 - 1 slices are counted, one that is in a call can take its next step: the one with the lock,
  -- if the lock is held, and else any of them. So the calls never wait for each other in a circle.
  pub Turns-Moves :
      {a : Place lh} (live : List ℕ) (s : State lh.Links) (n : ℕ)
      → IsPool lh live s
      → Turns lh (before_calls lh live s n) a
      → total in_call a.callers ≢ 0
      → a.state.pool.ref + 1 < 2 ^ 64
      → Moves lh a
  Turns-Moves {a} live s n pool r busy room =
      let (live', g) = Turns-Kept lh (before_calls-Kept lh live s n pool) r in
      elim (Bool-cases a.state.pool.locked) [
        | inl held ↦
            let one : total inside a.callers ≡ 1 = g.exclusive ∙ rw held refl in
            let (before, c, after, e, in_lock) =
              counted inside a.callers (λ z. omega (arith, one, z)) in
            go_on g room before c after e (called_of_inside c in_lock) (inl in_lock)
        | inr free ↦
            let (before, c, after, e, h) = counted in_call a.callers busy in
            go_on g room before c after e (called_of_counted c h) (inr free)
      ]
