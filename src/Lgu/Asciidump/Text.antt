-- ===== src/Lgu/Asciidump/Text.antt =====
-- The text that template-v1/src/lgu/asciidump/asciidump.h prints, and how the bytes are read off it.
use linux_c_template.Prelude.{
  ℕ, zero, suc, ◌+◌, ◌-◌, ◌*◌, ◌/◌, ◌%◌, ◌≤◌, ◌<◌, ◌≡◌, refl, false, Option, none, some, List, [],
  ◌∷◌, ◌++◌, arith, sym, ◌∙◌, append_assoc, ap,
}
use mathlib.Core.Option
use linux_c_template.Prelude.Tests.{ltb, ◌==◌, if◌then◌else◌}
use linux_c_template.Prelude.Lists.{length, take, ◌∉◌}
use linux_c_template.Lgu.Asciidump.{
  Print, banner, escaped, plain, newline, is_text, dump_from, asciidump_limit, shown, shown-end,
  asciidump_limit-shown,
}

-- `%x` of one digit
abbrev pub hex_digit : ℕ → ℕ
hex_digit d = if ltb d 10 then 48 + d else 87 + d

abbrev pub digit_of : ℕ → ℕ
digit_of c = if ltb c 58 then c - 48 else c - 87

-- "\033[0;33m\"
abbrev pub yellow : List ℕ
yellow = 27 ∷ 91 ∷ 48 ∷ 59 ∷ 51 ∷ 51 ∷ 109 ∷ 92 ∷ []

-- "\033[0m"
abbrev pub plainly : List ℕ
plainly = 27 ∷ 91 ∷ 48 ∷ 109 ∷ []

-- "\033[0;35m +"
abbrev pub purple : List ℕ
purple = 27 ∷ 91 ∷ 48 ∷ 59 ∷ 51 ∷ 53 ∷ 109 ∷ 32 ∷ 43 ∷ []

-- The characters of a call of `printf`. `decimal` is what `%d` prints.
abbrev pub text_of : (ℕ → List ℕ) → Print → List ℕ
text_of decimal (banner n) = purple ++ (decimal n ++ 62 ∷ (plainly ++ 32 ∷ []))
text_of decimal (escaped ch) = yellow ++ hex_digit (ch / 16) ∷ hex_digit (ch % 16) ∷ plainly
text_of decimal (plain ch) = ch ∷ []
text_of decimal newline = 10 ∷ []

abbrev pub text : (ℕ → List ℕ) → List Print → List ℕ
text decimal [] = []
text decimal (p ∷ ps) = text_of decimal p ++ text decimal ps

-- What follows a prefix.
abbrev pub strip : List ℕ → List ℕ → Option (List ℕ)
strip [] cs = some cs
strip (x ∷ xs) [] = none
strip (x ∷ xs) (c ∷ cs) = if x == c then strip xs cs else none

-- What follows the first `>`.
abbrev pub behind_banner : List ℕ → Option (List ℕ)
behind_banner [] = none
behind_banner (c ∷ cs) = if c == 62 then strip (plainly ++ 32 ∷ []) cs else behind_banner cs

-- One escape behind its colour, and the rest by `again`.
abbrev pub read_hex : (List ℕ → Option (List ℕ)) → List ℕ → Option (List ℕ)
read_hex again (h ∷ l ∷ cs) = elim (strip plainly cs) [
  | some more ↦ Option.map (◌∷◌ (16 * digit_of h + digit_of l)) (again more)
  | none ↦ none
]
read_hex again _ = none

abbrev pub read_plain : (List ℕ → Option (List ℕ)) → List ℕ → Option (List ℕ)
read_plain again [] = none
read_plain again (c ∷ cs) = if c == 10 then some [] else Option.map (◌∷◌ c) (again cs)

-- A reader of the text behind the banner, up to the end of the line, on fuel.
abbrev pub read_body : ℕ → List ℕ → Option (List ℕ)
read_body zero cs = none
read_body (suc n) cs = elim (strip yellow cs) [
  | some more ↦ read_hex (read_body n) more
  | none ↦ read_plain (read_body n) cs
]

-- What the loop prints: text as itself, and bytes that are escaped.
abbrev IsBody : List Print → Type 0
IsBody [] = Unit
IsBody (plain ch ∷ ps) = ((32 ≤ ch) × (ch ≤ 126)) × IsBody ps
IsBody (escaped ch ∷ ps) = (ch < 256) × IsBody ps
IsBody (_ ∷ ps) = ⊥

abbrev pub AreBytes : List ℕ → Type 0
AreBytes [] = Unit
AreBytes (ch ∷ chs) = (ch < 256) × AreBytes chs

dump_from-IsBody : (limit i : ℕ) (chs : List ℕ) → AreBytes chs → IsBody (dump_from limit i chs)
unfolding dump_from is_text
dump_from-IsBody limit i [] h = tt
dump_from-IsBody limit i (ch ∷ chs) h = ground (arith, dump_from-IsBody limit (i + 1) chs)

hex_lem :
    (ch : ℕ) → ch < 256 → 16 * digit_of (hex_digit (ch / 16)) + digit_of (hex_digit (ch % 16)) ≡ ch
hex_lem ch h = ground arith

strip-yellow : (ch : ℕ) (cs : List ℕ) → (27 == ch) ≡ false → strip yellow (ch ∷ cs) ≡ none
strip-yellow ch cs e = rw e refl

read_body-text :
    (decimal : ℕ → List ℕ) (ps : List Print) (fuel : ℕ)
    → IsBody ps
    → length ps < fuel
    → read_body fuel (text decimal ps ++ 10 ∷ []) ≡ some (shown ps)
read_body-text decimal ps zero h more = absurd (omega arith)
read_body-text decimal [] (suc n) h more = refl
read_body-text decimal (plain ch ∷ ps) (suc n) h more =
    rw (strip-yellow ch (text decimal ps ++ 10 ∷ []) (ground arith), read_body)
      (rw (read_body-text decimal ps n h.1 (omega arith)) (ground arith))
read_body-text decimal (escaped ch ∷ ps) (suc n) h more =
    rw (read_body-text decimal ps n h.1 (omega arith))
      (ap (λ b. some (b ∷ shown ps)) (hex_lem ch h.0))
read_body-text decimal (banner _ ∷ ps) (suc n) h more = elim h [ ]
read_body-text decimal (newline ∷ ps) (suc n) h more = elim h [ ]

text-append :
    (decimal : ℕ → List ℕ) (ps qs : List Print)
    → text decimal (ps ++ qs) ≡ text decimal ps ++ text decimal qs
text-append decimal [] qs = refl
text-append decimal (p ∷ ps) qs =
    ap (◌++◌ (text_of decimal p)) (text-append decimal ps qs)
    ∙ sym (append_assoc (text_of decimal p) (text decimal ps) (text decimal qs))

length-dump_from : (limit i : ℕ) (chs : List ℕ) → length (dump_from limit i chs) ≤ length chs
unfolding dump_from
length-dump_from limit i [] = omega arith
length-dump_from limit i (ch ∷ chs) = ground (arith, length-dump_from limit (i + 1) chs)

behind_banner-append :
    (digits body : List ℕ)
    → 62 ∉ digits
    → behind_banner (digits ++ 62 ∷ (plainly ++ 32 ∷ body)) ≡ some body
behind_banner-append [] body h = refl
behind_banner-append (d ∷ digits) body h =
    let other : (d == 62) ≡ false = ground arith in
    rw other (behind_banner-append digits body (ground arith))

-- The bytes that a line of the text shows.
abbrev pub read_line : ℕ → List ℕ → Option (List ℕ)
read_line n cs = elim (behind_banner cs) [ none ↦ none | some body ↦ read_body n body ]

read_line-some :
    (n : ℕ) (cs body : List ℕ) → behind_banner cs ≡ some body → read_line n cs ≡ read_body n body
read_line-some n cs body e = rw (e, read_line) refl

-- A reader that knows only the colours gets back the bytes, in order, up to the limit if one is set,
-- from the text that `asciidump_limit` prints of bytes: no byte is taken for a part of an escape, or for
-- the end of the line. Fuel for one more than the bytes is enough. What `%d` prints of the length may be
-- anything without a `>`.
pub asciidump_limit-text :
    (decimal : ℕ → List ℕ) (chs : List ℕ) (limit fuel : ℕ)
    → ((n : ℕ) → 62 ∉ decimal n)
    → AreBytes chs
    → length chs < fuel
    → read_line fuel (text decimal (asciidump_limit (some chs) limit))
      ≡ some (if limit == 0 then chs else take limit chs)
unfolding asciidump_limit
asciidump_limit-text decimal chs limit fuel digits bytes more =
    ap (read_line fuel) whole
    ∙ read_line-some fuel
        (purple ++ (decimal (length chs) ++ 62 ∷ (plainly ++ 32 ∷ (body ++ 10 ∷ []))))
        (body ++ 10 ∷ [])
        (behind_banner-append (decimal (length chs)) (body ++ 10 ∷ []) (digits (length chs)))
    ∙ read_body-text decimal (dump_from limit 0 chs) fuel (dump_from-IsBody limit 0 chs bytes)
        (omega (arith, length-dump_from limit 0 chs))
    ∙ ap some (sym (shown-end (dump_from limit 0 chs)) ∙ (asciidump_limit-shown chs limit).0)
  where
    body : List ℕ
    body = text decimal (dump_from limit 0 chs)

    whole :
        text decimal (asciidump_limit (some chs) limit)
        ≡ purple ++ (decimal (length chs) ++ 62 ∷ (plainly ++ 32 ∷ (body ++ 10 ∷ [])))
    whole = ap (◌++◌ purple) (
        append_assoc (decimal (length chs)) (62 ∷ (plainly ++ 32 ∷ []))
          (text decimal (dump_from limit 0 chs ++ newline ∷ []))
        ∙ ap (λ t. decimal (length chs) ++ 62 ∷ (plainly ++ 32 ∷ t))
            (text-append decimal (dump_from limit 0 chs) (newline ∷ [])))
