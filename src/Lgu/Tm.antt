-- ===== src/Lgu/Tm.antt =====
-- template-v1/src/lgu/tm/tm.h and tm.c: times as text. `localtime`, `strftime` and `sysinfo` are
-- parameters.
mod Examples
use linux_c_template.Prelude.{
  ℕ, zero, suc, ◌+◌, ◌<◌, ◌≤◌, ◌≡◌, ◌≢◌, refl, Bool, true, false, ◌||◌, Option, none, some, List,
  [], ◌∷◌, ◌++◌, arith, ap, inl, inr, ◌∙◌,
}
use linux_c_template.Prelude.Tests.{◌==◌, ltb, if◌then◌else◌, Bool-cases}
use linux_c_template.Prelude.Lists.{length, length-append}
use linux_c_template.Prelude.Outcome.{Outcome, ok, fault}

-- What the C library offers. `strftime` has no result when it returns 0; a result is the text that it
-- writes, without the final NUL.
pub record Libc : Type 1 where
  pub Tm : Type 0
  pub localtime : ℕ → Option Tm
  pub strftime : ℕ → List ℕ → Tm → Option (List ℕ)
  pub conversion : ℕ → Tm → List ℕ
  pub expand : List ℕ → Tm → List ℕ
  -- A conversion is `%` and a letter, and all else stands for itself.
  pub expand-nil : (tm : Tm) → expand [] tm ≡ []
  pub expand-conversion :
      (c : ℕ) (fmt : List ℕ) (tm : Tm) → expand (37 ∷ c ∷ fmt) tm ≡ conversion c tm ++ expand fmt tm
  pub expand-plain :
      (c : ℕ) (fmt : List ℕ) (tm : Tm) → c ≢ 37 → expand (c ∷ fmt) tm ≡ c ∷ expand fmt tm
  -- The text and its NUL are written if there is room; 0 is returned if not, and for the empty text.
  pub strftime_fits :
      (max : ℕ) (fmt : List ℕ) (tm : Tm)
      → length (expand fmt tm) < max
      → expand fmt tm ≢ []
      → strftime max fmt tm ≡ some (expand fmt tm)
  pub strftime_full :
      (max : ℕ) (fmt : List ℕ) (tm : Tm) → max ≤ length (expand fmt tm) → strftime max fmt tm ≡ none

-- `TM_TIMESTR_LEN`
abbrev pub tm_timestr_len : ℕ
tm_timestr_len = 32

-- "%a, %d %b %Y %T %z"
abbrev pub rfc2822 : List ℕ
rfc2822 =
    37 ∷ 97 ∷ 44 ∷ 32 ∷ 37 ∷ 100 ∷ 32 ∷ 37 ∷ 98 ∷ 32 ∷ 37 ∷ 89 ∷ 32 ∷ 37 ∷ 84 ∷ 32 ∷ 37 ∷ 122 ∷ []

module _ (libc : Libc) where
  -- `tm_strftime`: the text at the pointer that it returns, or `none` for `NULL`. `has_result` is
  -- whether `result` is not `NULL`, and `fmt` is `none` when it is `NULL`. `strftime` reads through the
  -- pointer that `localtime` returned.
  unfoldable pub tm_strftime : ℕ → Option (List ℕ) → Bool → ℕ → Outcome (Option (List ℕ))
  tm_strftime ts none has_result len = ok none
  tm_strftime ts (some fmt) false len = ok none
  tm_strftime ts (some fmt) true len =
      if len == 0
      then ok none
      else elim (libc.localtime ts) [ none ↦ fault | some tm ↦ ok (libc.strftime len fmt tm) ]

  -- `tm_time2str`
  unfoldable pub tm_time2str : ℕ → Bool → ℕ → Outcome (Option (List ℕ))
  unfolding tm_strftime
  tm_time2str ts has_result len = tm_strftime ts (some rfc2822) has_result len

-- `tm_uptime`; `none` is an error of `sysinfo`.
unfoldable pub tm_uptime : Option ℕ → ℕ
tm_uptime none = 0
tm_uptime (some uptime) = uptime

-- The widths of the conversions in the POSIX locale, for a year of four digits.
pub record HasWidths (libc : Libc) (tm : libc.Tm) : Type 0 where
  pub weekday : length (libc.conversion 97 tm) ≡ 3
  pub day : length (libc.conversion 100 tm) ≡ 2
  pub month : length (libc.conversion 98 tm) ≡ 3
  pub year : length (libc.conversion 89 tm) ≡ 4
  pub time : length (libc.conversion 84 tm) ≡ 8
  pub zone : length (libc.conversion 122 tm) ≡ 5

module _ (libc : Libc) where
  length-conversion :
      (c : ℕ) (fmt : List ℕ) (tm : libc.Tm)
      → length (libc.expand (37 ∷ c ∷ fmt) tm)
        ≡ length (libc.conversion c tm) + length (libc.expand fmt tm)
  length-conversion c fmt tm =
      ap length (libc.expand-conversion c fmt tm)
      ∙ length-append (libc.conversion c tm) (libc.expand fmt tm)

  length-plain :
      (c : ℕ) (fmt : List ℕ) (tm : libc.Tm)
      → c ≢ 37
      → length (libc.expand (c ∷ fmt) tm) ≡ 1 + length (libc.expand fmt tm)
  length-plain c fmt tm ne = omega (arith, ap length (libc.expand-plain c fmt tm ne))

  length-rfc2822 : (tm : libc.Tm) → HasWidths libc tm → length (libc.expand rfc2822 tm) ≡ 31
  length-rfc2822 tm w = omega (
    arith,
    length-conversion 97 _ tm,
    length-plain 44 _ tm,
    length-plain 32 _ tm,
    length-conversion 100 _ tm,
    length-conversion 98 _ tm,
    length-conversion 89 _ tm,
    length-conversion 84 _ tm,
    length-conversion 122 _ tm,
    ap length (libc.expand-nil tm),
    w.weekday,
    w.day,
    w.month,
    w.year,
    w.time,
    w.zone,
  )

  some_text : (tm : libc.Tm) → HasWidths libc tm → libc.expand rfc2822 tm ≢ []
  some_text tm w e = omega (arith, ap length e, length-rfc2822 tm w)

  -- For a time with a year of four digits, a buffer of `TM_TIMESTR_LEN` bytes is the smallest that is
  -- enough for `tm_time2str`: it returns the 31 characters of the RFC 2822 date when the buffer is that
  -- long, and `NULL` when it is shorter, and for no buffer.
  pub tm_time2str_lem :
      (ts len : ℕ) (tm : libc.Tm)
      → libc.localtime ts ≡ some tm
      → HasWidths libc tm
      → (length (libc.expand rfc2822 tm) + 1 ≡ tm_timestr_len)
        × (tm_time2str libc ts true len
            ≡ ok (if ltb len tm_timestr_len then none else some (libc.expand rfc2822 tm)))
        × (tm_time2str libc ts false len ≡ ok none)
  unfolding tm_time2str
  tm_time2str_lem ts len tm known w = (
    omega (arith, length-rfc2822 tm w),
    elim (Bool-cases (len == 0)) [
      | inl e ↦ ground arith
      | inr some_room ↦ elim (Bool-cases (ltb len tm_timestr_len)) [
        | inl short ↦
            let full = libc.strftime_full len rfc2822 tm (ground (arith, length-rfc2822 tm w)) in
            rw (some_room, known, full, short) refl
        | inr long ↦
            let fits =
              libc.strftime_fits len rfc2822 tm (ground (arith, length-rfc2822 tm w))
                (some_text tm w) in
            rw (some_room, known, fits, long) refl
      ]
    ],
    refl,
  )

  -- A time whose year does not fit, which `localtime` refuses, is a fault of `tm_strftime` on every
  -- buffer, which hands the `NULL` of `localtime` to `strftime`; no time is, on no buffer or no format.
  pub tm_strftime_fault :
      (ts len : ℕ) (fmt : List ℕ)
      → libc.localtime ts ≡ none
      → (tm_strftime libc ts (some fmt) true (len + 1) ≡ fault)
        × (tm_strftime libc ts (some fmt) true 0 ≡ ok none)
        × (tm_strftime libc ts none true len ≡ ok none)
  unfolding tm_strftime
  tm_strftime_fault ts len fmt refused =
      let room : (len + 1 == 0) ≡ false = ground arith in (rw (room, refused) refl, refl, refl)
