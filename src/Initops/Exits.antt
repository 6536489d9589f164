-- ===== src/Initops/Exits.antt =====
-- Which `exit` hooks template-v1/src/initops/initops.c runs, and how often.
use linux_c_template.Prelude.{ℕ, zero, suc, ◌+◌, ◌≡◌, refl, ◌&&◌, List, [], ◌∷◌, ◌++◌, arith}
use linux_c_template.Prelude.Tests.{ltb, ◌==◌, if◌then◌else◌}
use linux_c_template.Initops.{
  order_max, Initops, Call, init_call, exit_call, exec_exit_by_order, exit_levels, exec_exit,
}

-- How often the hook `name` is called.
abbrev pub exits_of : ℕ → List Call → ℕ
exits_of name [] = 0
exits_of name (init_call _ ∷ calls) = exits_of name calls
exits_of name (exit_call n ∷ calls) = (if n == name then 1 else 0) + exits_of name calls

pub exits_of-append :
    (name : ℕ) (xs ys : List Call) → exits_of name (xs ++ ys) ≡ exits_of name xs + exits_of name ys
exits_of-append name [] ys = omega arith
exits_of-append name (init_call n ∷ xs) ys = exits_of-append name xs ys
exits_of-append name (exit_call n ∷ xs) ys = omega (arith, exits_of-append name xs ys)

-- How many entries of the table, on the levels below `n`, are called `name` and have an `exit`.
abbrev pub entries_of : ℕ → ℕ → List Initops → ℕ
entries_of n name [] = 0
entries_of n name (op ∷ ops) =
    (if ltb op.order n && op.exit && op.name == name then 1 else 0) + entries_of n name ops

pub entries_of-zero : (name : ℕ) (table : List Initops) → entries_of 0 name table ≡ 0
entries_of-zero name [] = refl
entries_of-zero name (op ∷ ops) = ground (arith, entries_of-zero name ops)

pub entries_of-suc :
    (n name : ℕ) (table : List Initops)
    → entries_of (suc n) name table
      ≡ exits_of name (exec_exit_by_order n table) + entries_of n name table
unfolding exec_exit_by_order
entries_of-suc n name [] = omega arith
entries_of-suc n name (op ∷ ops) = ground (arith, entries_of-suc n name ops)

exit_levels-once :
    (n name : ℕ) (table : List Initops)
    → exits_of name (exit_levels n table) ≡ entries_of n name table
unfolding exit_levels
exit_levels-once zero name table = omega (arith, entries_of-zero name table)
exit_levels-once (suc n) name table = omega (
  arith,
  exits_of-append name (exec_exit_by_order n table) (exit_levels n table),
  exit_levels-once n name table,
  entries_of-suc n name table,
)

-- `initops_exec_exit` calls each `exit` hook as often as the table holds it on the levels up to
-- `INITOPS_ORDER_MAX`: once each, if it holds it once.
pub exec_exit-once :
    (name : ℕ) (table : List Initops)
    → exits_of name (exec_exit table) ≡ entries_of (order_max + 1) name table
unfolding exec_exit
exec_exit-once name table = exit_levels-once (order_max + 1) name table
