-- ===== src/Initops/Examples.antt =====
-- The theorems on template-v1/src/initops/initops.c at two tables.
use linux_c_template.Prelude.{
  ℕ, ◌+◌, ◌≤◌, ◌<◌, ◌≡◌, refl, true, some, List, [], ◌∷◌, ◌++◌, arith, min, reverse,
}
use linux_c_template.Initops.{
  order_max, Initops, initops_dummy, nonnegative, negative, exec_init, exec_exit_by_order,
}
use linux_c_template.Initops.Exits.{exits_of, entries_of}
use linux_c_template.Initops.Inits.{Accepts}
use linux_c_template.Initops.Rollback.{exec_init-rolls_back}

abbrev logger : Initops
logger = record { name = 1; order = 0; init = some nonnegative; exit = true }

abbrev service : Initops
service = record { name = 2; order = 1; init = some nonnegative; exit = true }

abbrev broken : Initops
broken = record { name = 3; order = 1; init = some negative; exit = true }

abbrev healthy : List Initops
healthy = initops_dummy ∷ service ∷ logger ∷ []

abbrev failing : List Initops
failing = initops_dummy ∷ (logger ∷ service ∷ []) ++ broken ∷ []

healthy-Accepts : (k : ℕ) → k ≤ order_max → Accepts k healthy
healthy-Accepts k h = ground arith

failing-Accepts : (l : ℕ) → l < 1 → Accepts l failing
failing-Accepts l h = ground arith

before-Accepts : Accepts 1 (initops_dummy ∷ logger ∷ service ∷ [])
before-Accepts = ground arith

exec_init-rolls_back_example :
    exits_of 2 (exec_init failing).0 + entries_of (min 1 1) 2 failing
    ≡ exits_of 2 (exec_exit_by_order 1 (broken ∷ reverse (logger ∷ service ∷ [])))
      + entries_of 1 2 failing
exec_init-rolls_back_example =
    exec_init-rolls_back 1 initops_dummy (logger ∷ service ∷ []) broken [] (omega arith)
      failing-Accepts before-Accepts refl refl 2
