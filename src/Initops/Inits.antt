-- ===== src/Initops/Inits.antt =====
-- What `initops_exec_init` of template-v1/src/initops/initops.c runs, when every hook accepts and
-- when one fails.
use linux_c_template.Prelude.{
  ℕ, zero, suc, ◌+◌, ◌-◌, ◌≤◌, ◌<◌, ◌≡◌, refl, Bool, true, false, ◌&&◌, Option, none, some, List,
  [], ◌∷◌, ◌++◌, arith, ap, sym, reverse, append_assoc,
}
use mathlib.Core.List.{reverse_aux}
use linux_c_template.Prelude.Tests.{◌==◌, if◌then◌else◌}
use linux_c_template.Initops.{
  order_max, order_first, Answer, negative, Initops, Call, init_call, unwind, init_loop,
  exec_init_by_order, rollback, init_levels, exec_init,
}

-- Whether the hook answers that it failed.
abbrev pub fails : Option Answer → Bool
fails (some negative) = true
fails _ = false

-- No hook of the level fails.
abbrev pub Accepts : ℕ → List Initops → Type 0
Accepts order [] = Unit
Accepts order (op ∷ ops) = ((op.order == order && fails op.init) ≡ false) × Accepts order ops

abbrev pub has_init : Option Answer → Bool
has_init none = false
has_init (some _) = true

-- The `init` hooks of a level, in the order of the table.
abbrev pub level_inits : ℕ → List Initops → List Call
level_inits order [] = []
level_inits order (op ∷ ops) =
    let rest = level_inits order ops in
    if op.order == order && has_init op.init then init_call op.name ∷ rest else rest

-- Those of the `n` levels from `order` on, level by level.
abbrev pub inits_from : ℕ → ℕ → List Initops → List Call
inits_from zero order table = []
inits_from (suc n) order table = level_inits order table ++ inits_from n (order + 1) table

init_loop-Accepts :
    (order : ℕ) (visited table : List Initops)
    → Accepts order table
    → init_loop order visited table ≡ (level_inits order table, true)
unfolding init_loop
init_loop-Accepts order visited [] h = refl
init_loop-Accepts order visited (op ∷ ops) h =
    ground (arith, init_loop-Accepts order (op ∷ visited) ops)

init_loop-fails :
    (order : ℕ) (visited before : List Initops) (op : Initops) (after : List Initops)
    → Accepts order before
    → op.order ≡ order
    → op.init ≡ some negative
    → init_loop order visited (before ++ op ∷ after) ≡ (
      level_inits order before
          ++ init_call op.name ∷ unwind order (op ∷ reverse_aux before visited),
      false,
    )
unfolding init_loop
init_loop-fails order visited [] op after h e f = ground arith
init_loop-fails order visited (q ∷ before) op after h e f =
    ground (arith, init_loop-fails order (q ∷ visited) before op after)

exec_init_by_order-Accepts :
    (order : ℕ) (table : List Initops)
    → Accepts order table
    → exec_init_by_order order table ≡ (level_inits order table, true)
unfolding exec_init_by_order
exec_init_by_order-Accepts order table h = init_loop-Accepts order [] table h

exec_init_by_order-fails :
    (order : ℕ) (before : List Initops) (op : Initops) (after : List Initops)
    → Accepts order before
    → op.order ≡ order
    → op.init ≡ some negative
    → exec_init_by_order order (before ++ op ∷ after)
      ≡ (level_inits order before ++ init_call op.name ∷ unwind order (op ∷ reverse before), false)
unfolding exec_init_by_order
exec_init_by_order-fails order before op after h at neg =
    init_loop-fails order [] before op after h at neg

init_levels-Accepts :
    (n order : ℕ) (table : List Initops)
    → ((k : ℕ) → order ≤ k → k < order + n → Accepts k table)
    → init_levels n order table ≡ (inits_from n order table, true)
unfolding init_levels
init_levels-Accepts zero order table h = refl
init_levels-Accepts (suc n) order table h = rw (
  exec_init_by_order-Accepts order table (h order (omega arith) (omega arith)),
  init_levels-Accepts n (order + 1) table (λ k a b. h k (omega arith) (omega arith)),
)

init_levels-fails :
    (m n order k : ℕ) (table : List Initops) (calls : List Call)
    → order + m ≡ k
    → ((l : ℕ) → order ≤ l → l < k → Accepts l table)
    → m < n
    → exec_init_by_order k table ≡ (calls, false)
    → init_levels n order table
      ≡ (inits_from m order table ++ (calls ++ rollback (k - 1) table), false)
unfolding init_levels
init_levels-fails m zero order k table calls at h lt e = absurd (omega arith)
init_levels-fails zero (suc n) order k table calls at h lt e =
    let here : order ≡ k = omega arith in rw (here, e)
init_levels-fails (suc m) (suc n) order k table calls at h lt e =
    let ih =
      init_levels-fails m n (order + 1) k table calls (omega arith) (λ l a b. h l (omega arith) b)
        (omega arith) e in
    let first : exec_init_by_order order table ≡ (level_inits order table, true) =
      exec_init_by_order-Accepts order table (h order (omega arith) (omega arith)) in
    rw (first, ih)
      (ap (λ c. (c, false))
        (sym (
          append_assoc (level_inits order table) (inits_from m (order + 1) table)
            (calls ++ rollback (k - 1) table))))

-- The entries from the failing one down to the second of the table, the nearest first.
abbrev pub unwound : List Initops → Initops → List Initops
unwound before op = op ∷ reverse before

-- When every hook of the levels up to `INITOPS_ORDER_MAX` accepts, `initops_exec_init` returns 0,
-- and has called every `init` once, lower levels first and each level in the order of the table.
pub exec_init-Accepts :
    (table : List Initops)
    → ((k : ℕ) → k ≤ order_max → Accepts k table)
    → exec_init table ≡ (inits_from (order_max + 1) order_first table, true)
unfolding exec_init
exec_init-Accepts table h =
    init_levels-Accepts (order_max + 1) order_first table (λ k a b. h k (omega arith))

-- When the entry `op` of level `k`, at most `INITOPS_ORDER_MAX`, is the first to fail,
-- `initops_exec_init` fails. It has called the
-- hooks of the levels below `k`, those before `op` on its own level, and `op`'s. Then it calls the
-- `exit` hooks of level `k` from `op` itself back to the second entry of the table, and those of the
-- levels from `k - 1` down to 1.
pub exec_init-fails :
    (k : ℕ) (before : List Initops) (op : Initops) (after : List Initops)
    → k ≤ order_max
    → ((l : ℕ) → l < k → Accepts l (before ++ op ∷ after))
    → Accepts k before
    → op.order ≡ k
    → op.init ≡ some negative
    → exec_init (before ++ op ∷ after) ≡ (
      inits_from k order_first (before ++ op ∷ after)
          ++ ((level_inits k before ++ init_call op.name ∷ unwind k (unwound before op))
              ++ rollback (k - 1) (before ++ op ∷ after)),
      false,
    )
unfolding exec_init
exec_init-fails k before op after le h own at neg =
    init_levels-fails k (order_max + 1) order_first k (before ++ op ∷ after) _ (omega arith)
      (λ l a b. h l b) (omega arith) (exec_init_by_order-fails k before op after own at neg)
