-- ===== src/Lgu/Stdmsg.antt =====
-- template-v1/src/lgu/stdmsg/stdmsg.h: the level of the messages.
pub mod Messages
use linux_c_template.Prelude.{ℕ, ◌+◌, ◌-◌, ◌≤◌, ◌≡◌, ◌≢◌, Bool, true, List, [], ◌∷◌, arith}
use linux_c_template.Prelude.Tests.{ltb, leb, if◌then◌else◌}

-- `stdmsg_level_t`: NONE, ERR, INFO, DBG, VBS and MAX
abbrev pub stdmsg_lv_none : ℕ
stdmsg_lv_none = 0

abbrev pub stdmsg_lv_info : ℕ
stdmsg_lv_info = 2

abbrev pub stdmsg_lv_max : ℕ
stdmsg_lv_max = 5

-- `stdmsg_lv_inc`, `stdmsg_lv_dec` and `stdmsg_lv_set`
pub data Tune : Type 0 where
  inc dec : Tune
  set : ℕ → Tune

unfoldable pub tune : Tune → ℕ → ℕ
tune inc lv = if ltb lv stdmsg_lv_max then lv + 1 else lv
tune dec lv = if ltb stdmsg_lv_none lv then lv - 1 else lv
tune (set l) lv = if leb stdmsg_lv_max l then stdmsg_lv_max else l

-- `stdmsg_lv_test`
unfoldable pub stdmsg_lv_test : ℕ → ℕ → Bool
stdmsg_lv_test l lv = leb l lv

unfoldable pub tune_all : List Tune → ℕ → ℕ
unfolding tune
tune_all [] lv = lv
tune_all (t ∷ ts) lv = tune_all ts (tune t lv)

-- From a level within its bounds, no sequence of changes leads out of them, so errors are printed
-- at every level that is not NONE, and messages of level MAX only at MAX.
pub tune_all-bounded :
    (ts : List Tune) (lv : ℕ)
    → lv ≤ stdmsg_lv_max
    → (tune_all ts lv ≤ stdmsg_lv_max)
      × (tune_all ts lv ≢ stdmsg_lv_none → stdmsg_lv_test 1 (tune_all ts lv) ≡ true)
      × (stdmsg_lv_test stdmsg_lv_max (tune_all ts lv) ≡ true → tune_all ts lv ≡ stdmsg_lv_max)
unfolding tune_all tune stdmsg_lv_test
tune_all-bounded [] lv h = (h, ground arith, ground arith)
tune_all-bounded (inc ∷ ts) lv h = tune_all-bounded ts (tune inc lv) (ground arith)
tune_all-bounded (dec ∷ ts) lv h = tune_all-bounded ts (tune dec lv) (ground arith)
tune_all-bounded (set l ∷ ts) lv h = tune_all-bounded ts (tune (set l) lv) (ground arith)
