-- ===== src/Lgu/Examples.antt =====
-- The theorems on template-v1/src/lgu at small inputs.
use linux_c_template.Prelude.{true, ◌≤◌, refl, ℕ, ◌≡◌, some, List, [], ◌∷◌, arith}
use linux_c_template.Prelude.Tests.{◌==◌, if◌then◌else◌}
use linux_c_template.Prelude.Lists.{take}
use linux_c_template.Prelude.Outcome.{Returns}
use linux_c_template.Lgu.Hexdump.{hexdump_f}
use linux_c_template.Lgu.Hexdump.Dump.{Dumped, hexdump_f-Dumped}
use linux_c_template.Lgu.Atomic.{Change}
use linux_c_template.Lgu.Stdmsg.{Tune, tune, stdmsg_lv_none, stdmsg_lv_max}
use linux_c_template.Lgu.Stdmsg.Messages.{
  stdmsg_lv_err, stdmsg_lv_dfl, Macro, err, vbs, Site, messages, Within, is_error, is_report,
  is_debug, errors, outputs, messages-levels,
}
use linux_c_template.Lgu.Asciidump.{asciidump_limit}
use linux_c_template.Lgu.Asciidump.Text.{text, read_line, asciidump_limit-text}

hexdump_f-Dumped_example : Returns (Dumped 2 (72 ∷ 105 ∷ 0 ∷ [])) (hexdump_f (72 ∷ 105 ∷ 0 ∷ []) 2)
hexdump_f-Dumped_example = hexdump_f-Dumped (72 ∷ 105 ∷ 0 ∷ []) 2 (omega arith)

abbrev changes : List Change
changes = Change.inc ∷ Change.sub 3 ∷ Change.add 7 ∷ Change.dec ∷ []

abbrev four : ℕ
four = 4

abbrev tunes : List Tune
tunes = Tune.inc ∷ Tune.set 9 ∷ Tune.dec ∷ []

abbrev greeting : List ℕ
greeting = 72 ∷ 92 ∷ 7 ∷ []

asciidump_limit-text_example :
    read_line 4 (text (λ n. 51 ∷ []) (asciidump_limit (some greeting) 2))
    ≡ some (if 2 == 0 then greeting else take 2 greeting)
asciidump_limit-text_example =
    asciidump_limit-text (λ n. 51 ∷ []) greeting 2 4 (λ n. refl)
      (omega arith, (omega arith, (omega arith, tt))) (omega arith)

abbrev report : List (Macro × Site × List ℕ)
report =
    (err, record { function = 102 ∷ []; line = 3 }, 120 ∷ [])
    ∷ (vbs, record { function = 102 ∷ []; line = 5 }, 121 ∷ [])
    ∷ []

abbrev three : ℕ → List ℕ
three n = 51 ∷ []

messages-levels_example :
    (messages three report (tune (Tune.set stdmsg_lv_none) 2) ≡ [])
    × (messages three report 1 ≡ outputs three is_error report)
    × (messages three report 2 ≡ outputs three is_report report)
    × (messages three report stdmsg_lv_dfl ≡ outputs three is_report report)
    × (messages three report 3 ≡ outputs three is_debug report)
    × (messages three report 4 ≡ outputs three (λ m. true) report)
    × (messages three report stdmsg_lv_max ≡ outputs three (λ m. true) report)
    × (stdmsg_lv_err ≤ 2 → errors (messages three report 2) ≡ outputs three is_error report)
    × Within (messages three report 2) (messages three report (tune (Tune.inc) 2))
    × Within (messages three report (tune (Tune.dec) 2)) (messages three report 2)
messages-levels_example = messages-levels three report 2
