-- ===== src/Mempool/Invariant.antt =====
-- When a pool of template-v1/src/mempool/mempool.c is well formed, and what is asked of its callbacks.
use linux_c_template.Prelude.{
  ℕ, ◌≡◌, refl, ◌≢◌, Bool, false, Option, none, some, List, ◌∷◌, arith, ap, ◌∙◌,
}
use linux_c_template.Prelude.Lists.{Distinct, remove}
use linux_c_template.ListHead.{ListHead}
use linux_c_template.Mempool.{Memory, State, Ctor, Dtor, null, run_dtor, run_ctor}
use linux_c_template.Mempool.Shape.{Shape, OwnBlock}

-- `malloc` returns a block that was not allocated, or fails.
abbrev pub IsFresh : Option (ℕ × ℕ) → Memory → Type 0
IsFresh none mem = Unit
IsFresh (some (p, _)) mem = (p ≢ null) × (mem p ≡ none)

-- `ctor` keeps to its slice, and accepts the `NULL` that `mempool_alloc` passes to it when there is
-- no slice.
abbrev pub CtorOwn : Option Ctor → Type 0
CtorOwn none = Unit
CtorOwn (some c) =
    ((p : ℕ) (mem : Memory) → OwnBlock p mem (c p mem).1)
    × ((mem : Memory) → (c null mem).0 ≡ false)

abbrev pub DtorOwn : Option Dtor → Type 0
DtorOwn none = Unit
DtorOwn (some d) = (p : ℕ) (mem : Memory) → OwnBlock p mem (d p mem)

-- A pool whose users hold the slices `live`, whoever holds its lock.
pub record IsOwned (lh : ListHead) (live : List ℕ) (s : State lh.Links) : Type 0 where
  pub shape : Shape live (lh.entries s.pool.list_free) s.pool.ref s.pool.max s.pool.sz s.mem
  pub ctor_own : CtorOwn s.pool.ctor
  pub dtor_own : DtorOwn s.pool.dtor

-- A pool between two calls.
pub record IsPool (lh : ListHead) (live : List ℕ) (s : State lh.Links) : Type 0 where
  pub owned : IsOwned lh live s
  pub unlocked : s.pool.locked ≡ false

pub run_dtor-OwnBlock :
    (d : Option Dtor) (p : ℕ) (mem : Memory) → DtorOwn d → OwnBlock p mem (run_dtor d p mem)
unfolding run_dtor
run_dtor-OwnBlock none p mem own = record { others = λ q ne. refl; still = refl }
run_dtor-OwnBlock (some d) p mem own = own p mem

pub run_ctor-OwnBlock :
    (c : Option Ctor) (p : ℕ) (mem : Memory) → CtorOwn c → OwnBlock p mem (run_ctor c p mem).1
unfolding run_ctor
run_ctor-OwnBlock none p mem own = record { others = λ q ne. refl; still = refl }
run_ctor-OwnBlock (some c) p mem own = own.0 p mem

pub run_ctor-null : (c : Option Ctor) (mem : Memory) → CtorOwn c → (run_ctor c null mem).0 ≡ false
unfolding run_ctor
run_ctor-null none mem own = refl
run_ctor-null (some c) mem own = own.1 mem

pub remove-head : (p : ℕ) (ps : List ℕ) → remove p (p ∷ ps) ≡ ps
remove-head p ps = ground arith

module _ (lh : ListHead) where
  -- The lock is no part of this.
  pub IsOwned-locked :
      {live : List ℕ} (s : State lh.Links) (b : Bool)
      → IsOwned lh live s
      → IsOwned lh live (record s { pool = record s.pool { locked = b } })
  IsOwned-locked s b inv = record {
    shape = inv.shape;
    ctor_own = inv.ctor_own;
    dtor_own = inv.dtor_own;
  }

  pub entries-list_del_first :
      (l : lh.Links) (p : ℕ) (ps : List ℕ)
      → Distinct (lh.entries l)
      → lh.entries l ≡ p ∷ ps
      → lh.entries (lh.list_del p l) ≡ ps
  entries-list_del_first l p ps d e = lh.entries-list_del p l d ∙ ap (remove p) e ∙ remove-head p ps
