-- ===== src/Fio/Easyrw/Faults.antt =====
-- Two files that `fio_easyrw_read_simple` of template-v1/src/lgu/fio/fio_easyrw.c does not survive.
use linux_c_template.Prelude.{
  ℕ, suc, ◌+◌, ◌-◌, ◌%◌, ◌^◌, ◌≤◌, ◌<◌, ◌≡◌, ◌⊎◌, true, false, not, ◌&&◌, some, List, [], arith, ap,
  ◌∙◌,
}
use linux_c_template.Prelude.Tests.{ltb, ◌==◌, is_some}
use linux_c_template.Prelude.Lists.{length, take, length-take}
use linux_c_template.Prelude.Outcome.{fault, aborted}
use linux_c_template.Fio.Easyrw.{
  Process, Kernel, bytes_of, simple_loop, with_buffer, open_simple, read_simple_from, load_simple,
  stat_simple, read_simple, free_out, alloc_out, page_sz,
}
use linux_c_template.Fio.Easyrw.Buffers.{Owns, free_out-Clean}

-- Nothing keeps the call from reading: the path is set, the file is regular and within the limit,
-- and `malloc` and `open` succeed.
pub record Admitted (k : Kernel) (size : ℕ) (p : Process) : Type 0 where
  pub name : List ℕ
  pub path : p.erw.path ≡ some name
  pub stat : k.stat ≡ some (true, size)
  pub within : (p.erw.limit ≡ 0) ⊎ (size ≤ p.erw.limit)
  pub mallocs : k.mallocs ≡ true
  pub opens : k.opens ≡ true

module _ (k : Kernel) (size fuel : ℕ) (p : Process) (a : Admitted k size p) (others : ℕ)
    (own : Owns others p) where
  pub open_reached :
      read_simple k fuel p ≡ open_simple k fuel size (with_buffer (size % 2 ^ 32) (free_out p))
  unfolding read_simple stat_simple load_simple alloc_out
  open_reached =
      let clean = free_out-Clean others p own in
      let unused : is_some (free_out p).erw.out ≡ false = ap is_some clean.no_out in
      let within : (not ((free_out p).erw.limit == 0) && ltb (free_out p).erw.limit size) ≡ false =
        ground (arith, a.within, clean.limit) in
      simp (a.path, a.stat, within, unused, a.mallocs)

  -- With a path, a regular file within the limit, a reader that owns its buffer, and `malloc` and
  -- `open` successful: when the size is 0 modulo 2^32, so also for an empty file,
  -- `fio_easyrw_read_simple` fails the assertion that `out_max` is positive, and ends the program.
  pub read_simple-aborts : size % 2 ^ 32 ≡ 0 → read_simple k fuel p ≡ aborted
  unfolding open_simple read_simple_from
  read_simple-aborts e = open_reached ∙ simp (e, a.opens)

  -- With a path, a regular file within the limit, a reader that owns its buffer, and `malloc` and
  -- `open` successful: when the size is from 2^32 - 4096 to 2^32 - 1 bytes, the sum in `malloc(len
  -- + MY_PAGE_SZ)` wraps, the buffer is shorter than `out_max`, and a first `read` that delivers
  -- more than fits writes beyond it.
  pub read_simple-overflows :
      (f : ℕ) (bs : List ℕ)
      → fuel ≡ suc f
      → 2 ^ 32 ≤ size + page_sz
      → size < 2 ^ 32
      → k.reads 0 ≡ bytes_of bs
      → size + page_sz - 2 ^ 32 < length bs
      → read_simple k fuel p ≡ fault
  unfolding open_simple read_simple_from simple_loop
  read_simple-overflows f bs enough low high first long =
      let word : size % 2 ^ 32 ≡ size = omega arith in
      let cap : (size + page_sz) % 2 ^ 32 ≡ size + page_sz - 2 ^ 32 = omega arith in
      let positive : (size == 0) ≡ false = ground arith in
      let taken = length-take size bs in
      let more : (length (take size bs) == 0) ≡ false = ground (arith, taken) in
      let beyond : ltb (size + page_sz - 2 ^ 32) (0 + length (take size bs)) ≡ true =
        ground (arith, taken) in
      let faults : simple_loop k.reads (size + page_sz - 2 ^ 32) size (suc f) 0 0 size [] ≡ fault =
        rw (first, simple_loop, more, beyond) in
      open_reached ∙ simp (a.opens, word, cap, positive, enough, faults)
