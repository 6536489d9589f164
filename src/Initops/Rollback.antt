-- ===== src/Initops/Rollback.antt =====
-- What a failed `initops_exec_init` of template-v1/src/initops/initops.c undoes.
use linux_c_template.Prelude.{
  ℕ, zero, suc, ◌+◌, ◌-◌, ◌≤◌, ◌<◌, ◌≡◌, refl, min, some, List, [], ◌∷◌, ◌++◌, arith, ap, ◌∙◌,
  reverse,
}
use mathlib.Core.List.{reverse_aux}
use mathlib.Core.List
use linux_c_template.Initops.{
  order_max, order_first, negative, Initops, init_call, unwind, exit_if, rollback, exec_init,
  exec_exit_by_order,
}
use linux_c_template.Initops.Exits.{
  exits_of, exits_of-append, entries_of, entries_of-zero, entries_of-suc,
}
use linux_c_template.Initops.Inits.{Accepts, level_inits, inits_from, exec_init-fails}

rollback-once :
    (n name : ℕ) (table : List Initops)
    → exits_of name (rollback n table) + entries_of 1 name table ≡ entries_of (suc n) name table
unfolding rollback
rollback-once zero name table = omega arith
rollback-once (suc n) name table = omega (
  arith,
  exits_of-append name (exec_exit_by_order (suc n) table) (rollback n table),
  rollback-once n name table,
  entries_of-suc (suc n) name table,
)

rollback_below :
    (k name : ℕ) (table : List Initops)
    → exits_of name (rollback (k - 1) table) + entries_of (min k 1) name table
      ≡ entries_of k name table
unfolding rollback
rollback_below zero name table = omega (arith, entries_of-zero name table)
rollback_below (suc k) name table =
    let e : suc k - 1 ≡ k = omega arith in
    let m : min (suc k) 1 ≡ 1 = omega arith in rw (e, m) (rollback-once k name table)

-- The first entry of the table is left out, whatever it is.
unwind-eq-exits :
    (order : ℕ) (ops : List Initops) (first : Initops)
    → unwind order (ops ++ first ∷ []) ≡ exec_exit_by_order order ops
unfolding unwind exec_exit_by_order exit_if
unwind-eq-exits order [] first = refl
unwind-eq-exits order (op ∷ []) first = refl
unwind-eq-exits order (op ∷ q ∷ ops) first = rw (unwind-eq-exits order (q ∷ ops) first)

level_inits-exits :
    (name order : ℕ) (table : List Initops) → exits_of name (level_inits order table) ≡ 0
level_inits-exits name order [] = refl
level_inits-exits name order (op ∷ ops) = ground (arith, level_inits-exits name order ops)

pub inits_from-exits :
    (name n order : ℕ) (table : List Initops) → exits_of name (inits_from n order table) ≡ 0
inits_from-exits name zero order table = refl
inits_from-exits name (suc n) order table = omega (
  arith,
  exits_of-append name (level_inits order table) (inits_from n (order + 1) table),
  level_inits-exits name order table,
  inits_from-exits name n (order + 1) table,
)

-- When the entry `op` of level `k`, which is at most `INITOPS_ORDER_MAX`, is the first to fail and is
-- not the first of the table, then
-- `initops_exec_init` calls `exit` hooks of level `k` for `op` itself and for the entries between it
-- and the first of the table, and every `exit` hook of the levels from 1 to `k - 1` as often as the
-- table holds it. It calls none of level 0 below `k`, and none for the first of the table on level `k`.
pub exec_init-rolls_back :
    (k : ℕ) (first : Initops) (before : List Initops) (op : Initops) (after : List Initops)
    → k ≤ order_max
    → ((l : ℕ) → l < k → Accepts l (first ∷ before ++ op ∷ after))
    → Accepts k (first ∷ before)
    → op.order ≡ k
    → op.init ≡ some negative
    → (name : ℕ)
    → exits_of name (exec_init (first ∷ before ++ op ∷ after)).0
        + entries_of (min k 1) name (first ∷ before ++ op ∷ after)
      ≡ exits_of name (exec_exit_by_order k (op ∷ reverse before))
        + entries_of k name (first ∷ before ++ op ∷ after)
exec_init-rolls_back k first before op after le h own at neg name =
    let table : List Initops = first ∷ before ++ op ∷ after in
    let failed = exec_init-fails k (first ∷ before) op after le h own at neg in
    let undone : unwind k (op ∷ reverse (first ∷ before))
        ≡ exec_exit_by_order k (op ∷ reverse before) =
      ap (λ l. unwind k (op ∷ l)) (List.reverse-cons first before)
      ∙ unwind-eq-exits k (op ∷ reverse before) first in
    rw (failed, undone)
      (omega (
        arith,
        exits_of-append name (inits_from k order_first table) (
            (level_inits k (first ∷ before)
              ++ init_call op.name ∷ exec_exit_by_order k (op ∷ reverse before))
            ++ rollback (k - 1) table),
        exits_of-append name
            (level_inits k (first ∷ before)
              ++ init_call op.name ∷ exec_exit_by_order k (op ∷ reverse before))
            (rollback (k - 1) table),
        exits_of-append name (level_inits k (first ∷ before))
            (init_call op.name ∷ exec_exit_by_order k (op ∷ reverse before)),
        inits_from-exits name k order_first table,
        level_inits-exits name k (first ∷ before),
        rollback_below k name table,
      ))
