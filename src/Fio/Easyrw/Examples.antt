-- ===== src/Fio/Easyrw/Examples.antt =====
-- The theorems on template-v1/src/lgu/fio/fio_easyrw.c at small files.
use linux_c_template.Prelude.{
  ℕ, zero, suc, ◌-◌, ◌^◌, ◌<◌, ◌≡◌, refl, inl, Bool, true, false, none, some, List, [], ◌∷◌, arith,
}
use linux_c_template.Prelude.Lists.{length}
use linux_c_template.Prelude.Outcome.{Returns, fault}
use linux_c_template.Fio.Easyrw.{Process, Kernel, Answer, bytes_of, res_ok, read_simple, read}
use linux_c_template.Fio.Easyrw.Simple.{Holds, Loaded, read_simple-Loaded}
use linux_c_template.Fio.Easyrw.Faults.{Admitted, read_simple-overflows}
use linux_c_template.Fio.Easyrw.Whole.{Complete, read_simple-Holds}
use linux_c_template.Fio.Easyrw.BlockRead.{Finished, read-Finished}

-- Two bytes, then one, then the end of the file.
abbrev two_reads : ℕ → Answer
two_reads zero = bytes_of (104 ∷ 105 ∷ [])
two_reads (suc zero) = bytes_of (10 ∷ [])
two_reads _ = bytes_of []

abbrev kernel : ℕ → (ℕ → Answer) → Kernel
kernel size reads = record { stat = some (true, size); mallocs = true; opens = true; reads = reads }

abbrev reader : ℕ → Process
reader limit = record {
  erw = record { path = some (97 ∷ []); limit = limit; out = none; out_len = 0; out_max = 0 };
  fds = 3;
  buffers = 1;
}

read_simple-Loaded_example :
    Returns (Loaded two_reads 3 1 3) (read_simple (kernel 3 two_reads) 4 (reader 0))
read_simple-Loaded_example =
    read_simple-Loaded (kernel 3 two_reads) 3 (omega arith) (omega arith) (reader 0) 1 4 true refl
      refl (omega arith)

abbrev never : ℕ → List ℕ → Bool
never n b = false

read-Finished_example :
    Returns
      (Finished (kernel 3 two_reads) never (reader 2).erw.path (some (true, 3)) 2 1 3)
      (read (kernel 3 two_reads) never 3 (reader 2))
read-Finished_example =
    read-Finished (kernel 3 two_reads) never 2 3 (omega arith) (omega arith) (omega arith)
      (reader 2) 1 refl refl

kernel-Admitted : (size : ℕ) (reads : ℕ → Answer) → Admitted (kernel size reads) size (reader 0)
kernel-Admitted size reads = record {
  name = 97 ∷ [];
  path = refl;
  stat = refl;
  within = inl refl;
  mallocs = refl;
  opens = refl;
}

-- A file of 2^32 - 4095 bytes gets a buffer of one byte.
read_simple-overflows_example : read_simple (kernel (2 ^ 32 - 4095) two_reads) 4 (reader 0) ≡ fault
read_simple-overflows_example =
    read_simple-overflows (kernel (2 ^ 32 - 4095) two_reads) (2 ^ 32 - 4095) 4 (reader 0)
      (kernel-Admitted (2 ^ 32 - 4095) two_reads) 1 refl 3 (104 ∷ 105 ∷ []) refl (omega arith)
      (omega arith) refl (omega arith)

two_reads-Complete : Complete two_reads 3 2
two_reads-Complete = record { before = before; total = refl; end = refl }
  where
    before : (j : ℕ) → j < 2 → (bs : List ℕ) × (two_reads j ≡ bytes_of bs) × (0 < length bs)
    before zero h = (104 ∷ 105 ∷ [], refl, omega arith)
    before (suc zero) h = (10 ∷ [], refl, omega arith)
    before (suc (suc j)) h = absurd (omega arith)

read_simple-Holds_example :
    Returns
      (λ (res, q). (res ≡ res_ok) × Holds two_reads 3 1 q)
      (read_simple (kernel 3 two_reads) 4 (reader 0))
read_simple-Holds_example =
    read_simple-Holds (kernel 3 two_reads) 3 2 (omega arith) (omega arith) two_reads-Complete 4
      (reader 0) 1 (kernel-Admitted 3 two_reads) refl (omega arith) (omega arith)
