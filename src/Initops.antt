-- ===== src/Initops.antt =====
-- template-v1/src/initops/initops.h and initops.c: a table of hooks, run level by level.
pub mod Exits
pub mod Inits
pub mod Rollback
mod Examples
use linux_c_template.Prelude.{
  ℕ, zero, suc, ◌+◌, ◌-◌, Bool, true, false, ◌&&◌, Option, none, some, List, [], ◌∷◌, ◌++◌,
}
use linux_c_template.Prelude.Tests.{◌==◌, if◌then◌else◌}

-- `initops_order_t`: FIRST, XXX, LAST and MAX
abbrev pub order_first : ℕ
order_first = 0

abbrev pub order_max : ℕ
order_max = 3

-- What an `init` function returns, as far as the program looks at it.
pub data Answer : Type 0 where
  negative nonnegative : Answer

-- `struct initops`. An `init` function is called at most once, so it stands for the answer that it
-- gives; of `exit` the program asks only whether there is one.
pub record Initops : Type 0 where
  pub name : ℕ
  pub order : ℕ
  pub init : Option Answer
  pub exit : Bool

-- The calls of hooks that the program makes, in order.
pub data Call : Type 0 where
  init_call exit_call : ℕ → Call

-- `initops_dummy`, which stands in every table
abbrev pub initops_dummy : Initops
initops_dummy = record { name = 0; order = order_max; init = some nonnegative; exit = true }

-- `if (initops->order == order && initops->exit) initops->exit(initops->priv)`
unfoldable pub exit_if : ℕ → Initops → List Call → List Call
exit_if order op rest = if op.order == order && op.exit then exit_call op.name ∷ rest else rest

-- `initops_exec_exit_by_order`
unfoldable pub exec_exit_by_order : ℕ → List Initops → List Call
unfolding exit_if
exec_exit_by_order order [] = []
exec_exit_by_order order (op ∷ ops) = exit_if order op (exec_exit_by_order order ops)

-- The loop behind `fallback:` of `initops_exec_init_by_order`, over the entries from `iter` down. It
-- stops before the first entry of the table.
unfoldable pub unwind : ℕ → List Initops → List Call
unfolding exit_if
unwind order [] = []
unwind order (op ∷ []) = []
unwind order (op ∷ prev ∷ ops) = exit_if order op (unwind order (prev ∷ ops))

-- The loop of `initops_exec_init_by_order`: the calls, and whether it returns 0. `visited` holds the
-- entries before `iter`, the nearest first.
unfoldable pub init_loop : ℕ → List Initops → List Initops → List Call × Bool
unfolding unwind
init_loop order visited [] = ([], true)
init_loop order visited (op ∷ ops) =
    let (calls, done) = init_loop order (op ∷ visited) ops in
    if op.order == order
    then elim op.init [
      | none ↦ (calls, done)
      | some negative ↦ (init_call op.name ∷ unwind order (op ∷ visited), false)
      | some nonnegative ↦ (init_call op.name ∷ calls, done)
    ]
    else (calls, done)

unfoldable pub exec_init_by_order : ℕ → List Initops → List Call × Bool
unfolding init_loop
exec_init_by_order order table = init_loop order [] table

-- The loop of `initops_exec_exit`, over the levels below `n`, downwards.
unfoldable pub exit_levels : ℕ → List Initops → List Call
unfolding exec_exit_by_order
exit_levels zero table = []
exit_levels (suc n) table = exec_exit_by_order n table ++ exit_levels n table

-- `initops_exec_exit`
unfoldable pub exec_exit : List Initops → List Call
unfolding exit_levels
exec_exit table = exit_levels (order_max + 1) table

-- The loop behind `fallback:` of `initops_exec_init`, from level `n` down; level 0 is skipped.
unfoldable pub rollback : ℕ → List Initops → List Call
unfolding exec_exit_by_order
rollback zero table = []
rollback (suc n) table = exec_exit_by_order (suc n) table ++ rollback n table

-- The loop of `initops_exec_init`, over `n` levels from `order` on.
unfoldable pub init_levels : ℕ → ℕ → List Initops → List Call × Bool
unfolding exec_init_by_order rollback
init_levels zero order table = ([], true)
init_levels (suc n) order table =
    let (calls, done) = exec_init_by_order order table in
    let (more, all_done) = init_levels n (order + 1) table in
    if done then (calls ++ more, all_done) else (calls ++ rollback (order - 1) table, false)

-- `initops_exec_init`: the calls, and whether it returns 0
unfoldable pub exec_init : List Initops → List Call × Bool
unfolding init_levels
exec_init table = init_levels (order_max + 1) order_first table
