-- ===== src/Main/Examples.antt =====
-- The theorems on template-v1/src/main.c at two runs: one alone, one while another holds the lock file.
use linux_c_template.Prelude.{ℕ, ◌*◌, ◌≡◌, ◌≤◌, true, false, ◌&&◌, none, some, List, [], ◌∷◌, arith}
use linux_c_template.Prelude.Tests.{◌==◌}
use linux_c_template.Prelude.Outcome.{Returns}
use linux_c_template.Initops.{Initops, initops_dummy, nonnegative, order_max}
use linux_c_template.Initops.Inits.{Accepts}
use linux_c_template.Lgu.Stdmsg.{stdmsg_lv_max}
use linux_c_template.Fio.Lock.Table.{Table, files}
use linux_c_template.Main.{
  Opt, background, verbose, quiet, help, Settings, Session, Program, argparse,
}
use linux_c_template.Main.Options.{all_known, known, set_by, argparse_lem}
use linux_c_template.Main.Client.Sample.{begun}
use linux_c_template.Main.Solo.{test_threadwq, Tested, test_threadwq-Tested}

abbrev quietly : List Opt
quietly = background ∷ quiet ∷ []

abbrev defaults : Settings
defaults = record { opt_background = false; stdmsg_lv = 2 }

argparse_lem_example :
    (argparse (verbose ∷ help ∷ []) 1 defaults
      ≡ (all_known (verbose ∷ help ∷ []) && 1 == 0, set_by (known (verbose ∷ help ∷ [])) defaults))
    × ((argparse (verbose ∷ help ∷ []) 1 defaults).1.stdmsg_lv ≤ stdmsg_lv_max)
argparse_lem_example = argparse_lem (verbose ∷ help ∷ []) 1 defaults (omega arith)

abbrev program_in : Table → Program files
program_in t = record {
  settings = defaults;
  process_lock_fd = none;
  registered = false;
  files = t;
  calls = [];
}

abbrev able : Session
able = record { setsid = true; daemon = true }

abbrev table : List Initops
table = initops_dummy ∷ record { name = 5; order = 1; init = some nonnegative; exit = true } ∷ []

table-Accepts : (k : ℕ) → k ≤ order_max → Accepts k table
table-Accepts k h = ground arith

-- Descriptor 3 holds the lock of file 7.
abbrev held : Table
held = record { used = 4; names = λ d. 7; gone = λ d. false; owner = λ p. some 3 }

-- A clock that goes on by 6 seconds with every reading.
abbrev sixes : ℕ → ℕ
sixes n = 6 * n

test_threadwq-Tested_example :
    Returns (Tested sixes begun.mp) (test_threadwq {Links = List ℕ} sixes 4 begun.mp)
test_threadwq-Tested_example = test_threadwq-Tested sixes 1 4 begun.mp (omega arith) (omega arith)
