-- ===== src/Lgu/Atomic.antt =====
-- template-v1/src/lgu/atomic/atomic.h: a counter of type `int`, which the `__sync` functions of GCC
-- change in one step each. An `int` is its 32 bits, and arithmetic wraps.
pub mod Counting
use linux_c_template.Prelude.{ℕ, ◌+◌, ◌-◌, ◌%◌, ◌^◌, Bool, List, [], ◌∷◌}
use linux_c_template.Prelude.Tests.{leb, ◌==◌}

-- `atomic_read`
unfoldable pub atomic_read : ℕ → ℕ
atomic_read v = v

-- `atomic_set`
unfoldable pub atomic_set : ℕ → ℕ → ℕ
atomic_set v i = i

-- `atomic_add`
unfoldable pub atomic_add : ℕ → ℕ → ℕ
atomic_add i v = (v + i) % 2 ^ 32

-- `atomic_sub`
unfoldable pub atomic_sub : ℕ → ℕ → ℕ
atomic_sub i v = (v + (2 ^ 32 - i)) % 2 ^ 32

-- `atomic_sub_and_test`: the answer, and the counter
unfoldable pub atomic_sub_and_test : ℕ → ℕ → Bool × ℕ
unfolding atomic_sub
atomic_sub_and_test i v = (atomic_sub i v == 0, atomic_sub i v)

-- `atomic_inc`
unfoldable pub atomic_inc : ℕ → ℕ
unfolding atomic_add
atomic_inc v = atomic_add 1 v

-- `atomic_dec`
unfoldable pub atomic_dec : ℕ → ℕ
unfolding atomic_sub
atomic_dec v = atomic_sub 1 v

-- `atomic_dec_and_test`
unfoldable pub atomic_dec_and_test : ℕ → Bool × ℕ
unfolding atomic_sub
atomic_dec_and_test v = (atomic_sub 1 v == 0, atomic_sub 1 v)

-- `atomic_inc_and_test`
unfoldable pub atomic_inc_and_test : ℕ → Bool × ℕ
unfolding atomic_add
atomic_inc_and_test v = (atomic_add 1 v == 0, atomic_add 1 v)

-- `atomic_add_negative`: the sign is the top bit
unfoldable pub atomic_add_negative : ℕ → ℕ → Bool × ℕ
unfolding atomic_add
atomic_add_negative i v = (leb (2 ^ 31) (atomic_add i v), atomic_add i v)

-- A change of the counter by some thread.
pub data Change : Type 0 where
  add sub : ℕ → Change
  inc dec : Change

unfoldable pub change : Change → ℕ → ℕ
unfolding atomic_add atomic_sub atomic_inc atomic_dec
change (add i) v = atomic_add i v
change (sub i) v = atomic_sub i v
change inc v = atomic_inc v
change dec v = atomic_dec v

-- The changes of all threads, in the order in which they happen.
unfoldable pub change_all : List Change → ℕ → ℕ
unfolding change
change_all [] v = v
change_all (c ∷ cs) v = change_all cs (change c v)

-- The answers of `n` calls of `atomic_dec_and_test`, and the counter.
unfoldable pub drop_references : ℕ → ℕ → List Bool × ℕ
unfolding atomic_dec_and_test
drop_references ℕ.zero v = ([], v)
drop_references (ℕ.suc n) v =
    let (last, v') = atomic_dec_and_test v in
    let (answers, v'') = drop_references n v' in (last ∷ answers, v'')
