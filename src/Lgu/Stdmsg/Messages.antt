-- ===== src/Lgu/Stdmsg/Messages.antt =====
-- The macros of template-v1/src/lgu/stdmsg/stdmsg.h that print a message.
use linux_c_template.Prelude.{
  ℕ, ◌≤◌, ◌<◌, ◌≡◌, ◌⊎◌, inl, inr, ◌∙◌, refl, Bool, true, false, Option, none, some, List, [], ◌∷◌,
  ◌++◌, arith,
}
use linux_c_template.Prelude.Tests.{leb, Bool-cases, if◌then◌else◌}
use linux_c_template.Lgu.Stdmsg.{
  inc, dec, set, tune, stdmsg_lv_none, stdmsg_lv_info, stdmsg_lv_max, stdmsg_lv_test,
}

-- The levels of `stdmsg_level_t` that a message has, with `stdmsg_lv_info`
abbrev pub stdmsg_lv_err : ℕ
stdmsg_lv_err = 1

abbrev pub stdmsg_lv_dbg : ℕ
stdmsg_lv_dbg = 3

abbrev pub stdmsg_lv_vbs : ℕ
stdmsg_lv_vbs = 4

-- The value of `stdmsg_lv` before `main`
abbrev pub stdmsg_lv_dfl : ℕ
stdmsg_lv_dfl = stdmsg_lv_info

pub data Macro : Type 0 where
  dbg dbg_raw vbs vbs_raw err err_raw info info_raw : Macro

pub data Stream : Type 0 where
  stdout stderr : Stream

-- The level that the macro tests.
unfoldable pub level : Macro → ℕ
level dbg = stdmsg_lv_dbg
level dbg_raw = stdmsg_lv_dbg
level vbs = stdmsg_lv_vbs
level vbs_raw = stdmsg_lv_vbs
level err = stdmsg_lv_err
level err_raw = stdmsg_lv_err
level info = stdmsg_lv_info
level info_raw = stdmsg_lv_info

-- `" * ERROR: "`
abbrev pub stdmsg_err_pfx : List ℕ
stdmsg_err_pfx = 32 ∷ 42 ∷ 32 ∷ 69 ∷ 82 ∷ 82 ∷ 79 ∷ 82 ∷ 58 ∷ 32 ∷ []

-- Where the message stands in the program.
pub record Site : Type 0 where
  pub function : List ℕ
  pub line : ℕ

module _ (decimal : ℕ → List ℕ) where
  -- `"%s:%d: " … "\n"`
  unfoldable pub located : Site → List ℕ → List ℕ
  located at text = at.function ++ 58 ∷ (decimal at.line ++ 58 ∷ 32 ∷ (text ++ 10 ∷ []))

  -- What the macro hands to a stream when it prints. `text` is what `fmt` and its arguments give.
  unfoldable pub output : Macro → Site → List ℕ → Stream × List ℕ
  unfolding located
  output dbg at text = (stdout, located at text)
  output dbg_raw at text = (stdout, text)
  output vbs at text = (stdout, located at text)
  output vbs_raw at text = (stdout, text)
  output err at text = (stderr, stdmsg_err_pfx ++ (text ++ 10 ∷ []))
  output err_raw at text = (stderr, text)
  output info at text = (stdout, text ++ 10 ∷ [])
  output info_raw at text = (stdout, text)

  -- A use of the macro at the level `lv`.
  unfoldable pub message : Macro → Site → List ℕ → ℕ → Option (Stream × List ℕ)
  unfolding level output stdmsg_lv_test
  message macro at text lv =
      if stdmsg_lv_test (level macro) lv then some (output macro at text) else none

  -- The messages of a program at one level, in order.
  unfoldable pub messages : List (Macro × Site × List ℕ) → ℕ → List (Stream × List ℕ)
  unfolding message
  messages [] lv = []
  messages ((macro, at, text) ∷ ms) lv = elim (message macro at text lv) [
    | none ↦ messages ms lv
    | some out ↦ out ∷ messages ms lv
  ]

-- `xs` is `ys` with some elements left out.
pub data Within {A : Type 0} : List A → List A → Type 0 where
  end : Within [] []
  both : (x : A) {xs ys : List A} → Within xs ys → Within (x ∷ xs) (x ∷ ys)
  skip : (y : A) {xs ys : List A} → Within xs ys → Within xs (y ∷ ys)

-- Which messages are errors, which a user sees by default, and which one who debugs sees.
abbrev pub is_error : Macro → Bool
is_error err = true
is_error err_raw = true
is_error _ = false

abbrev pub is_report : Macro → Bool
is_report info = true
is_report info_raw = true
is_report m = is_error m

abbrev pub is_debug : Macro → Bool
is_debug dbg = true
is_debug dbg_raw = true
is_debug m = is_report m

abbrev pub is_stderr : Stream → Bool
is_stderr stderr = true
is_stderr stdout = false

-- What goes to `stderr`.
abbrev pub errors : List (Stream × List ℕ) → List (Stream × List ℕ)
errors [] = []
errors ((s, text) ∷ outs) = if is_stderr s then (s, text) ∷ errors outs else errors outs

module _ (decimal : ℕ → List ℕ) where
  -- The messages whose macro passes a test.
  abbrev pub outputs : (Macro → Bool) → List (Macro × Site × List ℕ) → List (Stream × List ℕ)
  outputs test [] = []
  outputs test ((macro, at, text) ∷ ms) =
      if test macro then output decimal macro at text ∷ outputs test ms else outputs test ms

  messages-outputs :
      (ms : List (Macro × Site × List ℕ)) (lv : ℕ) (test : Macro → Bool)
      → ((m : Macro) → leb (level m) lv ≡ test m)
      → messages decimal ms lv ≡ outputs test ms
  unfolding messages message stdmsg_lv_test
  messages-outputs [] lv test same = refl
  messages-outputs ((macro, at, text) ∷ ms) lv test same =
      ground (arith, same macro, messages-outputs ms lv test same)

  errors-outputs :
      (ms : List (Macro × Site × List ℕ)) (lv : ℕ)
      → stdmsg_lv_err ≤ lv
      → errors (messages decimal ms lv) ≡ outputs is_error ms
  unfolding messages message stdmsg_lv_test level output
  errors-outputs [] lv h = refl
  errors-outputs ((dbg, at, text) ∷ ms) lv h = ground (arith, errors-outputs ms lv h)
  errors-outputs ((dbg_raw, at, text) ∷ ms) lv h = ground (arith, errors-outputs ms lv h)
  errors-outputs ((vbs, at, text) ∷ ms) lv h = ground (arith, errors-outputs ms lv h)
  errors-outputs ((vbs_raw, at, text) ∷ ms) lv h = ground (arith, errors-outputs ms lv h)
  errors-outputs ((err, at, text) ∷ ms) lv h = ground (arith, errors-outputs ms lv h)
  errors-outputs ((err_raw, at, text) ∷ ms) lv h = ground (arith, errors-outputs ms lv h)
  errors-outputs ((info, at, text) ∷ ms) lv h = ground (arith, errors-outputs ms lv h)
  errors-outputs ((info_raw, at, text) ∷ ms) lv h = ground (arith, errors-outputs ms lv h)

  message-cases :
      (macro : Macro) (at : Site) (text : List ℕ) (lv : ℕ)
      → ((level macro ≤ lv)
          × (message decimal macro at text lv ≡ some (output decimal macro at text)))
        ⊎ ((lv < level macro) × (message decimal macro at text lv ≡ none))
  unfolding message stdmsg_lv_test
  message-cases macro at text lv = elim (Bool-cases (leb (level macro) lv)) [
    | inl e ↦ inl (ground arith, ground arith)
    | inr e ↦ inr (ground arith, ground arith)
  ]

  messages-Within :
      (ms : List (Macro × Site × List ℕ)) (lv lv' : ℕ)
      → lv ≤ lv'
      → Within (messages decimal ms lv) (messages decimal ms lv')
  unfolding messages
  messages-Within [] lv lv' h = end
  messages-Within ((macro, at, text) ∷ ms) lv lv' h =
      let rest = messages-Within ms lv lv' h in
      elim (message-cases macro at text lv) [
        | inl (le, e) ↦ elim (message-cases macro at text lv') [
          | inl (_, e') ↦ rw (e, e', messages) (both (output decimal macro at text) rest)
          | inr (lt, e') ↦ absurd (omega arith)
        ]
        | inr (_, e) ↦ elim (message-cases macro at text lv') [
          | inl (_, e') ↦ rw (e, e', messages) (skip (output decimal macro at text) rest)
          | inr (_, e') ↦ rw (e, e', messages) rest
        ]
      ]

  -- A program prints nothing at level NONE, its errors at level 1, its errors and its information at level
  -- 2, which is the default level, these and what `DBG` and `DBG_RAW` print at level 3, and every message,
  -- also those of `VBS` and `VBS_RAW`, at level 4 and at level MAX, each time in order. From level ERR on `stderr` gets all errors, and nothing
  -- else, whatever the level is. `stdmsg_lv_inc` only adds messages, and `stdmsg_lv_dec` only leaves some
  -- out.
  pub messages-levels :
      (ms : List (Macro × Site × List ℕ)) (lv : ℕ)
      → (messages decimal ms (tune (set stdmsg_lv_none) lv) ≡ [])
        × (messages decimal ms 1 ≡ outputs is_error ms)
        × (messages decimal ms 2 ≡ outputs is_report ms)
        × (messages decimal ms stdmsg_lv_dfl ≡ outputs is_report ms)
        × (messages decimal ms 3 ≡ outputs is_debug ms)
        × (messages decimal ms 4 ≡ outputs (λ m. true) ms)
        × (messages decimal ms stdmsg_lv_max ≡ outputs (λ m. true) ms)
        × (stdmsg_lv_err ≤ lv → errors (messages decimal ms lv) ≡ outputs is_error ms)
        × Within (messages decimal ms lv) (messages decimal ms (tune inc lv))
        × Within (messages decimal ms (tune dec lv)) (messages decimal ms lv)
  unfolding tune level
  messages-levels ms lv = (
    messages-outputs ms stdmsg_lv_none (λ m. false) (λ m. ground arith) ∙ none_left ms,
    messages-outputs ms 1 is_error (λ m. ground arith),
    messages-outputs ms 2 is_report (λ m. ground arith),
    messages-outputs ms stdmsg_lv_dfl is_report (λ m. ground arith),
    messages-outputs ms 3 is_debug (λ m. ground arith),
    messages-outputs ms 4 (λ m. true) (λ m. ground arith),
    messages-outputs ms stdmsg_lv_max (λ m. true) (λ m. ground arith),
    errors-outputs ms lv,
    messages-Within ms lv (tune inc lv) (ground arith),
    messages-Within ms (tune dec lv) lv (ground arith),
  )
    where
      none_left : (ms : List (Macro × Site × List ℕ)) → outputs (λ m. false) ms ≡ []
      none_left [] = refl
      none_left (m ∷ ms) = none_left ms
