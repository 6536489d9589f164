-- ===== src/Lgu/Tm/Examples.antt =====
-- The theorem on template-v1/src/lgu/tm/tm.c, with a C library in which time stands still.
use linux_c_template.Prelude.{
  ℕ, ◌+◌, ◌≡◌, ◌≢◌, refl, Bool, true, false, ◌&&◌, Option, none, some, List, [], ◌∷◌, ◌++◌, arith,
}
use linux_c_template.Prelude.Tests.{◌==◌, ltb, if◌then◌else◌}
use linux_c_template.Prelude.Lists.{length, replicate}
use linux_c_template.Prelude.Outcome.{ok}
use linux_c_template.Lgu.Tm.{Libc, HasWidths, rfc2822, tm_timestr_len, tm_time2str, tm_time2str_lem}

-- The width of a conversion, of which only `%a`, `%b`, `%Y`, `%T` and `%z` are not two wide.
abbrev width : ℕ → ℕ
width c =
    if c == 97
    then 3
    else if c == 98
    then 3
    else if c == 89
    then 4
    else if c == 84
    then 8
    else if c == 122
    then 5
    else 2

abbrev expand : Bool → List ℕ → List ℕ
expand b [] = []
expand true (c ∷ fmt) = replicate (width c) c ++ expand false fmt
expand false (c ∷ fmt) = if c == 37 then expand true fmt else c ∷ expand false fmt

abbrev strftime : ℕ → List ℕ → Option (List ℕ)
strftime max fmt =
    let written = expand false fmt in
    if ltb 0 (length written) && ltb (length written) max then some written else none

length-zero : (l : List ℕ) → l ≢ [] → ltb 0 (length l) ≡ true
length-zero [] h = absurd (h refl)
length-zero (x ∷ l) h = ground arith

abbrev libc : Libc
libc = record {
  Tm = ℕ;
  localtime = λ ts. some ts;
  strftime = λ max fmt tm. strftime max fmt;
  conversion = λ c tm. replicate (width c) c;
  expand = λ fmt tm. expand false fmt;
  expand-nil = λ tm. refl;
  expand-conversion = λ c fmt tm. refl;
  expand-plain = λ c fmt tm ne. ground arith;
  strftime_fits = λ max fmt tm h ne. ground (arith, length-zero (expand false fmt) ne);
  strftime_full = λ max fmt tm h. ground arith;
}

libc-HasWidths : HasWidths libc 7
libc-HasWidths = record {
  weekday = refl;
  day = refl;
  month = refl;
  year = refl;
  time = refl;
  zone = refl;
}

tm_time2str_lem_example :
    (length (expand false rfc2822) + 1 ≡ tm_timestr_len)
    × (tm_time2str libc 7 true 20
        ≡ ok (if ltb 20 tm_timestr_len then none else some (expand false rfc2822)))
    × (tm_time2str libc 7 false 20 ≡ ok none)
tm_time2str_lem_example = tm_time2str_lem libc 7 20 7 refl libc-HasWidths
