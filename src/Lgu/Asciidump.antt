-- ===== src/Lgu/Asciidump.antt =====
-- template-v1/src/lgu/asciidump/asciidump.h: bytes printed as text, with the others escaped.
pub mod Text
use linux_c_template.Prelude.{
  ℕ, suc, ◌+◌, ◌-◌, ◌≤◌, ◌≡◌, ◌≢◌, refl, Bool, not, ◌&&◌, ◌||◌, Option, none, some, List, [], ◌∷◌,
  ◌++◌, arith, ap, sym, ◌∙◌, inl, inr,
}
use linux_c_template.Prelude.Tests.{ltb, leb, ◌==◌, if◌then◌else◌, Bool-cases}
use linux_c_template.Prelude.Lists.{length, take, take-nil}

-- The calls of `printf`, with their arguments.
pub data Print : Type 0 where
  banner escaped plain : ℕ → Print
  newline : Print

-- `__is_text`
unfoldable pub is_text : ℕ → Bool
is_text ch = leb 32 ch && leb ch 126 && not (ch == 92)

-- The loop from index `i` on. A limit of 0 is none.
unfoldable pub dump_from : ℕ → ℕ → List ℕ → List Print
unfolding is_text
dump_from limit i [] = []
dump_from limit i (ch ∷ chs) =
    let rest = dump_from limit (i + 1) chs in
    if limit == 0 || ltb i limit
    then (if not (is_text ch) then escaped ch ∷ rest else plain ch ∷ rest)
    else []

-- `asciidump_limit`; `none` is `NULL`
unfoldable pub asciidump_limit : Option (List ℕ) → ℕ → List Print
unfolding dump_from
asciidump_limit none limit = []
asciidump_limit (some chs) limit = banner (length chs) ∷ dump_from limit 0 chs ++ newline ∷ []

-- The bytes that can be read off what was printed.
abbrev pub shown : List Print → List ℕ
shown [] = []
shown (escaped ch ∷ ps) = ch ∷ shown ps
shown (plain ch ∷ ps) = ch ∷ shown ps
shown (_ ∷ ps) = shown ps

-- Only text is printed as it is, and no backslash, which begins an escape.
abbrev pub Readable : List Print → Type 0
Readable [] = Unit
Readable (plain ch ∷ ps) = ((32 ≤ ch) × (ch ≤ 126) × (ch ≢ 92)) × Readable ps
Readable (_ ∷ ps) = Readable ps

Readable-end : (ps : List Print) → Readable ps → Readable (ps ++ newline ∷ [])
Readable-end [] r = tt
Readable-end (plain ch ∷ ps) r = (r.0, Readable-end ps r.1)
Readable-end (escaped ch ∷ ps) r = Readable-end ps r
Readable-end (banner n ∷ ps) r = Readable-end ps r
Readable-end (newline ∷ ps) r = Readable-end ps r

shown-end : (ps : List Print) → shown (ps ++ newline ∷ []) ≡ shown ps
shown-end [] = refl
shown-end (plain ch ∷ ps) = ap (◌∷◌ ch) (shown-end ps)
shown-end (escaped ch ∷ ps) = ap (◌∷◌ ch) (shown-end ps)
shown-end (banner n ∷ ps) = shown-end ps
shown-end (newline ∷ ps) = shown-end ps

dump_from-Readable : (limit i : ℕ) (chs : List ℕ) → Readable (dump_from limit i chs)
unfolding dump_from is_text
dump_from-Readable limit i [] = tt
dump_from-Readable limit i (ch ∷ chs) = ground (arith, dump_from-Readable limit (i + 1) chs)

dump_from-all : (i : ℕ) (chs : List ℕ) → shown (dump_from 0 i chs) ≡ chs
unfolding dump_from
dump_from-all i [] = refl
dump_from-all i (ch ∷ chs) = ground (arith, dump_from-all (i + 1) chs)

dump_from-take :
    (limit i : ℕ) (chs : List ℕ) → limit ≢ 0 → shown (dump_from limit i chs) ≡ take (limit - i) chs
unfolding dump_from
dump_from-take limit i [] h = sym (take-nil (limit - i))
dump_from-take limit i (ch ∷ chs) h = elim (Bool-cases (ltb i limit)) [
  | inl below ↦
      let more : limit - i ≡ suc (limit - (i + 1)) = ground arith in
      rw more (ground (arith, dump_from-take limit (i + 1) chs h))
  | inr past ↦ let none_left : limit - i ≡ 0 = ground arith in rw none_left (ground arith)
]

-- The bytes that can be read off what `asciidump_limit` prints are the bytes that it was given, in
-- order, up to the limit if one is set, each as itself or escaped; as itself only text, and no
-- backslash. On `NULL` it prints nothing.
pub asciidump_limit-shown :
    (chs : List ℕ) (limit : ℕ)
    → (shown (asciidump_limit (some chs) limit) ≡ (if limit == 0 then chs else take limit chs))
      × Readable (asciidump_limit (some chs) limit)
      × (asciidump_limit none limit ≡ [])
unfolding asciidump_limit
asciidump_limit-shown chs limit =
    (all, Readable-end (dump_from limit 0 chs) (dump_from-Readable limit 0 chs), refl)
  where
    all :
        shown (dump_from limit 0 chs ++ newline ∷ []) ≡ (if limit == 0 then chs else take limit chs)
    all = elim (Bool-cases (limit == 0)) [
      | inl unlimited ↦
          let zero_limit : limit ≡ 0 = ground arith in
          rw zero_limit (shown-end (dump_from 0 0 chs) ∙ dump_from-all 0 chs)
      | inr limited ↦
          let start : limit - 0 ≡ limit = omega arith in
          let set : limit ≢ 0 = ground arith in
          rw limited (
            shown-end (dump_from limit 0 chs)
            ∙ dump_from-take limit 0 chs set
            ∙ ap (λ n. take n chs) start)
    ]
