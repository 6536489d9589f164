-- ===== src/Mempool/Threads.antt =====
-- template-v1/src/mempool/mempool.c called by any number of threads at once. Each access to what they
-- share is one step: what a call does before it takes the lock, between the lock and its release, and
-- after it.
pub mod Steps
pub mod Holders
pub mod Acts
pub mod Slices
pub mod Keeps
pub mod Interleaved
pub mod Progress
mod Examples
use linux_c_template.Prelude.{ℕ, ◌+◌, ◌^◌, ◌<◌, ◌≡◌, Bool, true, false, Option, List, [], ◌∷◌, ◌++◌}
use linux_c_template.Prelude.Tests.{◌==◌, if◌then◌else◌}
use linux_c_template.Prelude.Lists.{◌∈◌, remove}
use linux_c_template.Prelude.Outcome.{ok}
use linux_c_template.ListHead.{ListHead}
use linux_c_template.Mempool.{
  Memory, State, null, run_dtor, run_ctor, set_magic, alloc_slice, recycle_unlocked, spin_lock,
  spin_unlock,
}
use linux_c_template.Mempool.Shape.{OwnBlock}
use linux_c_template.Mempool.Invariant.{IsFresh}

-- Where a thread stands in `mempool_alloc`, `mempool_free` or `mempool_recycle`, with its slice.
pub data Caller : Type 0 where
  outside : Caller
  allocs : Caller  -- before the lock of `mempool_alloc`
  takes : Caller  -- before `alloc_slice`, with the lock
  took : ℕ → Caller  -- after it, with the lock
  builds : ℕ → Caller  -- before `ctor`
  drops : ℕ → Caller  -- before `dtor`, in `mempool_free`
  frees : ℕ → Caller  -- after `slice->magic = …`, before the lock
  links : ℕ → Caller  -- before `list_add`, with the lock
  recycles : Caller  -- before the lock of `mempool_recycle`
  empties : Caller  -- before `__mempool_recycle`, with the lock
  leaves : Caller  -- before `pthread_spin_unlock`

module _ (lh : ListHead) where
  -- The pool with the slices that the threads hold when they are in no call.
  pub record Place : Type 0 where
    pub state : State lh.Links
    pub users : List ℕ
    pub callers : List Caller

  -- A step of a thread that stands at a `Caller`. The users hold the slices of the list.
  pub data Act (s : State lh.Links) (users : List ℕ)
      : Caller → State lh.Links → List ℕ → Caller → Type 0 where
    call_alloc : Act s users outside s users allocs
    call_free : (p : ℕ) → p ∈ users → Act s users outside s (remove p users) (drops p)
    call_recycle : Act s users outside s users recycles
    lock_alloc : {s' : State lh.Links} → spin_lock s ≡ ok s' → Act s users allocs s' users takes
    take :
        (answer : Option (ℕ × ℕ)) {p : ℕ} {s' : State lh.Links}
        → IsFresh answer s.mem
        → s.pool.ref + 1 < 2 ^ 64
        → alloc_slice lh answer s ≡ ok (p, s')
        → Act s users takes s' users (took p)
    unlock_alloc : {p : ℕ} → Act s users (took p) (spin_unlock s) users (builds p)
    accept :
        {p : ℕ} {mem' : Memory}
        → run_ctor s.pool.ctor p s.mem ≡ (false, mem')
        → Act s users
            (builds p)
            (record s { mem = mem' })
            (if p == null then users else p ∷ users)
            outside
    reject :
        {p : ℕ} {mem' : Memory}
        → run_ctor s.pool.ctor p s.mem ≡ (true, mem')
        → Act s users (builds p) (record s { mem = mem' }) users (drops p)
    mark :
        {p : ℕ} {s' : State lh.Links}
        → set_magic p (record s { mem = run_dtor s.pool.dtor p s.mem }) ≡ ok s'
        → Act s users (drops p) s' users (frees p)
    lock_free :
        {p : ℕ} {s' : State lh.Links}
        → spin_lock s ≡ ok s'
        → Act s users (frees p) s' users (links p)
    link :
        {p : ℕ}
        → Act s users
            (links p)
            (record s { pool = record s.pool { list_free = lh.list_add p s.pool.list_free } })
            users
            leaves
    lock_recycle :
        {s' : State lh.Links} → spin_lock s ≡ ok s' → Act s users recycles s' users empties
    empty :
        {s' : State lh.Links}
        → recycle_unlocked lh 0 s ≡ ok s'
        → Act s users empties s' users leaves
    unlock : Act s users leaves (spin_unlock s) users outside

  -- A step of one of the threads, or a write of a user to a slice that it holds.
  pub data Turn (a : Place) : Place → Type 0 where
    acts :
        (before : List Caller) {c c' : Caller} (after : List Caller) {s' : State lh.Links}
        {users' : List ℕ}
        → a.callers ≡ before ++ c ∷ after
        → Act a.state a.users c s' users' c'
        → Turn a (record { state = s'; users = users'; callers = before ++ c' ∷ after })
    writes :
        (p : ℕ) (mem' : Memory)
        → p ∈ a.users
        → OwnBlock p a.state.mem mem'
        → Turn a (record a { state = record a.state { mem = mem' } })

  pub data Turns (a : Place) : Place → Type 0 where
    at_start : Turns a a
    further : {b c : Place} → Turns a b → Turn b c → Turns a c
