-- ===== src/Lgu/Hexdump/Dump.antt =====
-- `hexdump_f` of template-v1/src/lgu/hexdump/hexdump.c against the lines that it is to print.
use linux_c_template.Prelude.{
  ℕ, ◌+◌, ◌*◌, ◌%◌, ◌^◌, ◌<◌, ◌≡◌, refl, inl, inr, true, List, [], ◌∷◌, ◌++◌, arith, ap,
  append_assoc, append-nil, ◌∙◌, sym,
}
use linux_c_template.Prelude.Tests.{ltb, ◌==◌, Bool-cases}
use linux_c_template.Prelude.Lists.{length, length-append}
use linux_c_template.Prelude.Outcome.{ok, Returns, returns, Returns-bind}
use linux_c_template.Lgu.Hexdump.{
  Print, title, heading, row, byte_text, char_text, strcat, add_gap, add_byte, dump_loop, hd_size,
  hr_size, hexdump_f, hex_digit,
}
use linux_c_template.Lgu.Hexdump.Rows.{
  gap, columns, rows, Lines, Lines-cons, flatten, columns-append, length-columns,
}

strcat-fits :
    (size : ℕ) (dst src : List ℕ)
    → length dst + length src < size
    → strcat size dst src ≡ ok (dst ++ src)
unfolding strcat
strcat-fits size dst src h =
    let e : ltb (length dst + length src) size ≡ true = ground arith in rw e refl

add_gap-gap :
    (i k : ℕ) (hd hr : List ℕ)
    → i % 16 ≡ k
    → (k ≡ 7 → length hd + 1 < hd_size)
    → (k ≡ 7 → length hr + 1 < hr_size)
    → add_gap i (hd, hr) ≡ ok (hd ++ gap k, hr ++ gap k)
unfolding add_gap
add_gap-gap i k hd hr e short short' = elim (Bool-cases (k == 7)) [
  | inl eighth ↦
      rw
        (
          e,
          eighth,
          strcat-fits hr_size hr (32 ∷ []) (short' (ground arith)),
          strcat-fits hd_size hd (32 ∷ []) (short (ground arith)),
        )
        refl
  | inr other ↦ rw (e, other, append-nil hd, append-nil hr) refl
]

-- The arrays have room for one more byte and for the gap.
add_byte-columns :
    (i b : ℕ) (pre : List ℕ)
    → i % 16 ≡ length pre
    → length pre < 16
    → add_byte i b (columns byte_text 0 pre, columns char_text 0 pre)
      ≡ ok (columns byte_text 0 (pre ++ b ∷ []), columns char_text 0 (pre ++ b ∷ []))
unfolding add_byte
add_byte-columns i b pre e lt =
    let hd = columns byte_text 0 pre in
    let hr = columns char_text 0 pre in
    let hd_len = length-columns byte_text 3 (λ b. refl) 0 pre in
    let first : 0 + length pre ≡ length pre = omega arith in
    let hr_len = length-columns char_text 1 (λ b. refl) 0 pre in
    rw
      (
        strcat-fits hd_size hd (byte_text b) (ground (arith, hd_len)),
        strcat-fits hr_size hr (char_text b) (ground (arith, hr_len)),
        add_gap-gap i (length pre) (hd ++ byte_text b) (hr ++ char_text b) e
            (λ at. ground (arith, hd_len, length-append hd (byte_text b)))
            (λ at. ground (arith, hr_len, length-append hr (char_text b))),
        append_assoc hd (byte_text b) (gap (length pre)),
        append_assoc hr (char_text b) (gap (length pre)),
        columns-append byte_text 0 pre b,
        columns-append char_text 0 pre b,
        first,
      )
      refl

-- The lines for the bytes `bytes` that begin with line `line`.
pub record Printed (line : ℕ) (bytes : List ℕ) (out : List Print) : Type 0 where
  pub lines : List (List ℕ)
  pub text : out ≡ rows line lines
  pub whole : flatten lines ≡ bytes
  pub cut : Lines lines

-- At the end of the bytes.
rest-Printed :
    (line : ℕ) (pre : List ℕ)
    → length pre < 16
    → Returns
        (Printed line pre)
        (dump_loop [] 0 line (columns byte_text 0 pre, columns char_text 0 pre))
unfolding dump_loop
rest-Printed line [] lt = returns (record { lines = []; text = refl; whole = refl; cut = tt })
rest-Printed line (b ∷ pre) lt = returns (record {
  lines = (b ∷ pre) ∷ [];
  text = ground arith;
  whole = append-nil (b ∷ pre);
  cut = (omega arith, omega arith);
})

-- `pre` stands in the line that is not yet printed.
dump_loop-Printed :
    (bs : List ℕ) (i line : ℕ) (pre : List ℕ)
    → i ≡ 16 * line + length pre
    → length pre < 16
    → i + length bs < 2 ^ 32
    → Returns
        (Printed line (pre ++ bs))
        (dump_loop bs i line (columns byte_text 0 pre, columns char_text 0 pre))
unfolding dump_loop
dump_loop-Printed [] i line pre e lt short = rw (append-nil pre) (rest-Printed line pre lt)
dump_loop-Printed (b ∷ bs) i line pre e lt short =
    let place : i % 16 ≡ length pre = omega arith in
    let more = length-append pre (b ∷ []) in
    let next : (i + 1) % 2 ^ 32 ≡ i + 1 = omega arith in
    let below : (line + 1) % 2 ^ 32 ≡ line + 1 = omega arith in
    let split = append_assoc pre (b ∷ []) bs in
    elim (Bool-cases (i % 16 == 15)) [
      | inl last ↦
          rw (add_byte-columns i b pre place lt, last, next, below)
            (Returns-bind
              (dump_loop-Printed bs (i + 1) (line + 1) [] (ground arith) (omega arith)
                (omega arith))
              λ out r. returns (record {
                lines = (pre ++ b ∷ []) ∷ r.lines;
                text =
                    ap
                      (λ l.
                        row (16 * line % 2 ^ 32) (columns byte_text 0 (pre ++ b ∷ []))
                          (columns char_text 0 (pre ++ b ∷ []))
                        ∷ l)
                      r.text;
                whole = ap (λ l. (pre ++ b ∷ []) ++ l) r.whole ∙ split;
                cut = Lines-cons (pre ++ b ∷ []) r.lines (ground (arith, more)) r.cut;
              }))
      | inr inside ↦
          rw (add_byte-columns i b pre place lt, inside, next, sym split)
            (dump_loop-Printed bs (i + 1) line (pre ++ b ∷ []) (omega (arith, more))
              (ground (arith, more)) (omega arith))
    ]

-- The sixteen columns of the heading.
abbrev pub column_numbers : List ℕ
column_numbers = 0 ∷ 1 ∷ 2 ∷ 3 ∷ 4 ∷ 5 ∷ 6 ∷ 7 ∷ 8 ∷ 9 ∷ 10 ∷ 11 ∷ 12 ∷ 13 ∷ 14 ∷ 15 ∷ []

abbrev pub digit_text : ℕ → List ℕ
digit_text d = hex_digit d ∷ []

-- What a dump prints: a title, a heading, and then the lines.
pub record Dumped (limit : ℕ) (bytes : List ℕ) (out : List Print) : Type 0 where
  pub body : List Print
  pub printed : Printed 0 bytes body
  pub all :
      out
      ≡ title (length bytes) limit
        ∷ heading (columns byte_text 0 column_numbers) (columns digit_text 0 column_numbers)
        ∷ body

-- `hexdump_f` on fewer than 2^32 bytes never writes beyond `hd` or `hr`. It prints every byte, in
-- order, sixteen to a line and at least one to the last, with a gap behind the eighth, and with the
-- offset of the line. The limit has no effect but on the title.
pub hexdump_f-Dumped :
    (bytes : List ℕ) (limit : ℕ)
    → length bytes < 2 ^ 32
    → Returns (Dumped limit bytes) (hexdump_f bytes limit)
unfolding hexdump_f
hexdump_f-Dumped bytes limit short =
    Returns-bind (dump_loop-Printed bytes 0 0 [] refl (omega arith) (omega arith))
      λ body p. returns (record { body = body; printed = p; all = refl })
