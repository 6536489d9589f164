-- ===== src/Lgu/Hexdump/Rows.antt =====
-- The lines that template-v1/src/lgu/hexdump/hexdump.c is to print: one for each sixteen bytes.
use linux_c_template.Prelude.{
  ℕ, ◌+◌, ◌*◌, ◌%◌, ◌^◌, ◌≤◌, ◌<◌, ◌≡◌, ◌&&◌, List, [], ◌∷◌, ◌++◌, arith, append-nil, append_assoc,
  sym,
}
use linux_c_template.Prelude.Tests.{ltb, leb, ◌==◌, if◌then◌else◌}
use linux_c_template.Prelude.Lists.{length, length-append}
use linux_c_template.Lgu.Hexdump.{Print, row, byte_text, char_text}

-- The gap behind column `k`.
abbrev pub gap : ℕ → List ℕ
gap k = if k == 7 then 32 ∷ [] else []

-- The texts of the bytes that stand in the columns from `k` on.
abbrev pub columns : (ℕ → List ℕ) → ℕ → List ℕ → List ℕ
columns text k [] = []
columns text k (b ∷ bs) = (text b ++ gap k) ++ columns text (k + 1) bs

-- The lines from `line` on, for bytes that were cut into lines.
abbrev pub rows : ℕ → List (List ℕ) → List Print
rows line [] = []
rows line (c ∷ cs) =
    row (16 * line % 2 ^ 32) (columns byte_text 0 c) (columns char_text 0 c) ∷ rows (line + 1) cs

-- Every line but the last has sixteen bytes, and none is empty.
abbrev pub Lines : List (List ℕ) → Type 0
Lines [] = Unit
Lines (c ∷ []) = (0 < length c) × (length c ≤ 16)
Lines (c ∷ d ∷ cs) = (length c ≡ 16) × Lines (d ∷ cs)

abbrev pub flatten : List (List ℕ) → List ℕ
flatten [] = []
flatten (c ∷ cs) = c ++ flatten cs

pub Lines-cons : (c : List ℕ) (cs : List (List ℕ)) → length c ≡ 16 → Lines cs → Lines (c ∷ cs)
Lines-cons c [] e l = (omega arith, omega arith)
Lines-cons c (d ∷ cs) e l = (e, l)

pub columns-append :
    (text : ℕ → List ℕ) (k : ℕ) (xs : List ℕ) (b : ℕ)
    → columns text k (xs ++ b ∷ []) ≡ columns text k xs ++ (text b ++ gap (k + length xs))
columns-append text k [] b = let e : k + 0 ≡ k = omega arith in rw e (append-nil (text b ++ gap k))
columns-append text k (x ∷ xs) b =
    let e : k + ℕ.suc (length xs) ≡ k + 1 + length xs = omega arith in
    rw (e, columns-append text (k + 1) xs b)
      (sym (
        append_assoc (text x ++ gap k) (columns text (k + 1) xs)
          (text b ++ gap (k + 1 + length xs))))

length-gap : (k : ℕ) → length (gap k) ≡ (if k == 7 then 1 else 0)
length-gap k = ground arith

-- `w` characters for each byte, and one for the gap.
pub length-columns :
    (text : ℕ → List ℕ) (w : ℕ)
    → ((b : ℕ) → length (text b) ≡ w)
    → (k : ℕ) (xs : List ℕ)
    → length (columns text k xs)
      ≡ w * length xs + (if leb k 7 && ltb 7 (k + length xs) then 1 else 0)
length-columns text w each k [] = ground arith
length-columns text w each k (x ∷ xs) = ground (
  arith,
  length-append (text x ++ gap k) (columns text (k + 1) xs),
  length-append (text x) (gap k),
  length-gap k,
  each x,
  length-columns text w each (k + 1) xs,
)
