-- ===== src/Main/Options.antt =====
-- What the options of template-v1/src/main.c set.
use linux_c_template.Prelude.{
  ℕ, ◌≤◌, ◌≡◌, refl, Bool, true, false, ◌&&◌, ◌||◌, List, [], ◌∷◌, arith, inl, inr,
}
use linux_c_template.Prelude.Tests.{◌==◌, if◌then◌else◌, Bool-cases}
use linux_c_template.Lgu.Stdmsg.{Tune, tune, tune_all, tune_all-bounded, stdmsg_lv_max}
use linux_c_template.Main.{
  Opt, background, verbose, quiet, help, other, Settings, argparse_loop, argparse,
}

abbrev pub is_known : Opt → Bool
is_known help = false
is_known other = false
is_known _ = true

abbrev pub all_known : List Opt → Bool
all_known [] = true
all_known (o ∷ opts) = is_known o && all_known opts

-- The options before the first that ends the program.
abbrev pub known : List Opt → List Opt
known [] = []
known (o ∷ opts) = if is_known o then o ∷ known opts else []

abbrev pub has_background : List Opt → Bool
has_background [] = false
has_background (background ∷ opts) = true
has_background (_ ∷ opts) = has_background opts

abbrev pub tunes : List Opt → List Tune
tunes [] = []
tunes (quiet ∷ opts) = Tune.dec ∷ tunes opts
tunes (verbose ∷ opts) = Tune.inc ∷ tunes opts
tunes (_ ∷ opts) = tunes opts

-- What a list of options makes of the settings.
abbrev pub set_by : List Opt → Settings → Settings
set_by opts st = record {
  opt_background = st.opt_background || has_background opts;
  stdmsg_lv = tune_all (tunes opts) st.stdmsg_lv;
}

argparse_loop_lem :
    (opts : List Opt) (st : Settings)
    → argparse_loop opts st ≡ (all_known opts, set_by (known opts) st)
unfolding argparse_loop tune_all
argparse_loop_lem [] st = ground arith
argparse_loop_lem (background ∷ opts) st =
    ground (arith, argparse_loop_lem opts (record st { opt_background = true }))
argparse_loop_lem (quiet ∷ opts) st =
    ground (arith, argparse_loop_lem opts (record st { stdmsg_lv = tune Tune.dec st.stdmsg_lv }))
argparse_loop_lem (verbose ∷ opts) st =
    ground (arith, argparse_loop_lem opts (record st { stdmsg_lv = tune Tune.inc st.stdmsg_lv }))
argparse_loop_lem (help ∷ opts) st = ground arith
argparse_loop_lem (other ∷ opts) st = ground arith

-- `argparse` returns 0 exactly when every option is one of `b`, `v` and `q` and nothing follows the
-- options. The options up to the first other one are obeyed in order: `b` sets `opt_background`, and
-- `v` and `q` move the level of the messages, which stays within its bounds if it starts there.
pub argparse_lem :
    (opts : List Opt) (operands : ℕ) (st : Settings)
    → st.stdmsg_lv ≤ stdmsg_lv_max
    → (argparse opts operands st ≡ (all_known opts && operands == 0, set_by (known opts) st))
      × ((argparse opts operands st).1.stdmsg_lv ≤ stdmsg_lv_max)
unfolding argparse
argparse_lem opts operands st h =
    let loop = argparse_loop_lem opts st in
    let (bound, _, _) = tune_all-bounded (tunes (known opts)) st.stdmsg_lv h in
    elim (Bool-cases (all_known opts)) [
      | inl good ↦ rw (loop, good) (ground arith, bound)
      | inr bad ↦ rw (loop, bad) (refl, bound)
    ]
