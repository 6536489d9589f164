-- ===== src/Lgu/Hexdump.antt =====
-- template-v1/src/lgu/hexdump/hexdump.c: bytes printed sixteen to a line, in two character arrays of
-- fixed size. Characters are their codes; a string has no zero in it, so `strlen` is `length`.
pub mod Rows
pub mod Dump
use linux_c_template.Prelude.{
  ℕ, ◌+◌, ◌*◌, ◌/◌, ◌%◌, ◌^◌, Bool, true, false, ◌||◌, List, [], ◌∷◌, ◌++◌,
}
use linux_c_template.Prelude.Tests.{ltb, ◌==◌, if◌then◌else◌}
use linux_c_template.Prelude.Lists.{length}
use linux_c_template.Prelude.Outcome.{Outcome, ok, aborted, fault, deadlocked, out_of_fuel, ◌>>=◌}

-- The calls of `fprintf`, with their arguments.
pub data Print : Type 0 where
  title : (nbytes limit : ℕ) → Print
  heading : (hd hr : List ℕ) → Print
  row : (offset : ℕ) (hd hr : List ℕ) → Print

-- `%X` of one digit
abbrev pub hex_digit : ℕ → ℕ
hex_digit d = if ltb d 10 then 48 + d else 55 + d

-- `"%02X "` of a byte
abbrev pub byte_text : ℕ → List ℕ
byte_text b = hex_digit (b / 16 % 16) ∷ hex_digit (b % 16) ∷ 32 ∷ []

-- A byte that is printed as itself, or a dot.
abbrev pub char_text : ℕ → List ℕ
char_text b = (if ltb b 33 || ltb 126 b then 46 else b) ∷ []

-- The sizes of `hd` and `hr`
abbrev pub hd_size : ℕ
hd_size = 50

abbrev pub hr_size : ℕ
hr_size = 20

-- `strcat` on an array of `size` bytes, which needs one for the end of the string
unfoldable pub strcat : ℕ → List ℕ → List ℕ → Outcome (List ℕ)
strcat size dst src = if ltb (length dst + length src) size then ok (dst ++ src) else fault

-- The gap after the eighth column.
unfoldable pub add_gap : ℕ → List ℕ × List ℕ → Outcome (List ℕ × List ℕ)
unfolding strcat
add_gap i (hd, hr) =
    if i % 16 == 7
    then (do hr ← strcat hr_size hr (32 ∷ []); hd ← strcat hd_size hd (32 ∷ []); ok (hd, hr))
    else ok (hd, hr)

-- The heading: `n` columns from `i` on.
unfoldable pub heading_loop : ℕ → ℕ → List ℕ × List ℕ → Outcome (List ℕ × List ℕ)
unfolding strcat add_gap
heading_loop ℕ.zero i bufs = ok bufs
heading_loop (ℕ.suc n) i (hd, hr) = do
  hd ← strcat hd_size hd (byte_text i)
  hr ← strcat hr_size hr (hex_digit i ∷ [])
  bufs ← add_gap i (hd, hr)
  heading_loop n (i + 1) bufs

-- One byte added to the line.
unfoldable pub add_byte : ℕ → ℕ → List ℕ × List ℕ → Outcome (List ℕ × List ℕ)
unfolding strcat add_gap
add_byte i b (hd, hr) = do
  hd ← strcat hd_size hd (byte_text b)
  hr ← strcat hr_size hr (char_text b)
  add_gap i (hd, hr)

-- The loop over the bytes, and the last line. `i` and `line` are `unsigned int`.
unfoldable pub dump_loop : List ℕ → ℕ → ℕ → List ℕ × List ℕ → Outcome (List Print)
unfolding add_byte
dump_loop [] i line (hd, hr) =
    ok (if ltb 0 (length hr) then row (16 * line % 2 ^ 32) hd hr ∷ [] else [])
dump_loop (b ∷ bs) i line bufs = do
  (hd, hr) ← add_byte i b bufs
  elim (i % 16 == 15) [
    | true ↦ do
      rest ← dump_loop bs ((i + 1) % 2 ^ 32) ((line + 1) % 2 ^ 32) ([], [])
      ok (row (16 * line % 2 ^ 32) hd hr ∷ rest)
    | false ↦ dump_loop bs ((i + 1) % 2 ^ 32) line (hd, hr)
  ]

-- `hexdump_f`
unfoldable pub hexdump_f : List ℕ → ℕ → Outcome (List Print)
unfolding heading_loop dump_loop
hexdump_f bytes limit = do
  (hd, hr) ← heading_loop 16 0 ([], [])
  rows ← dump_loop bytes 0 0 ([], [])
  ok (title (length bytes) limit ∷ heading hd hr ∷ rows)
