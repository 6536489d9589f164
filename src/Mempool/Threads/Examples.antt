-- ===== src/Mempool/Threads/Examples.antt =====
-- The theorems on the threads in template-v1/src/mempool/mempool.c, at a run of two threads.
use linux_c_template.Prelude.{ℕ, refl, inr, true, false, none, some, List, [], ◌∷◌, arith}
use linux_c_template.Prelude.Tests.{◌==◌, if◌then◌else◌}
use linux_c_template.ListHead.{sequence}
use linux_c_template.Mempool.{
  Memory, State, write, mempool_slice_magic, run_dtor, set_magic, spin_lock,
}
use linux_c_template.Mempool.Invariant.{IsPool}
use linux_c_template.Mempool.Threads.{
  Caller, outside, takes, frees, Act, Place, Turn, Turns, at_start, further,
}
use linux_c_template.Mempool.Threads.Interleaved.{before_calls, Orderly, Turns-Orderly}
use linux_c_template.Mempool.Threads.Progress.{Moves, Turns-Moves}

-- A user holds the block at 8; the one at 16 is marked free.
abbrev heap : Memory
heap p = if p == 8 then some 5 else if p == 16 then some mempool_slice_magic else none

abbrev shared : State (List ℕ)
shared = record {
  pool = record {
    magic = 1409831944;
    sz = 24;
    name = 65 ∷ [];
    ref = 2;
    max = 2;
    fail = 0;
    ctor = none;
    dtor = none;
    locked = false;
    list_free = 16 ∷ [];
  };
  mem = heap;
}

shared-IsPool : IsPool sequence (8 ∷ []) shared
shared-IsPool = record {
  owned = record {
    shape = record {
      apart = (refl, tt);
      linked = (refl, tt);
      separate = λ p i. ground arith;
      counted = refl;
      marked = λ p i. ground arith;
      held = λ p i. ground arith;
      no_null = refl;
      capped = inr (omega arith);
      fits = omega arith;
      roomy = omega arith;
    };
    ctor_own = tt;
    dtor_own = tt;
  };
  unlocked = refl;
}

-- The first thread has marked its slice and waits for the lock, which the second has.
abbrev crossed : Place sequence
crossed = record {
  state = record {
    pool = record shared.pool { locked = true };
    mem = write heap 8 (some mempool_slice_magic);
  };
  users = [];
  callers = frees 8 ∷ takes ∷ [];
}

crossed-Turns : Turns sequence (before_calls sequence (8 ∷ []) shared 2) crossed
unfolding set_magic run_dtor spin_lock
crossed-Turns =
    further
      (further
        (further (further at_start (Turn.acts [] (outside ∷ []) refl (Act.call_free 8 refl)))
          (Turn.acts (Caller.drops 8 ∷ []) [] refl Act.call_alloc))
        (Turn.acts [] (Caller.allocs ∷ []) refl (Act.mark refl)))
      (Turn.acts (frees 8 ∷ []) [] refl (Act.lock_alloc refl))

Turns-Orderly_example : Orderly sequence crossed
Turns-Orderly_example = Turns-Orderly sequence (8 ∷ []) shared 2 shared-IsPool crossed-Turns

Turns-Moves_example : Moves sequence crossed
Turns-Moves_example =
    Turns-Moves sequence (8 ∷ []) shared 2 shared-IsPool crossed-Turns (λ e. omega arith)
      (omega arith)
