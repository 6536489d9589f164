-- ===== src/Fio/Easyrw.antt =====
-- template-v1/src/lgu/fio/fio_easyrw.h and fio_easyrw.c: a regular file read into one buffer, or
-- block by block. What the kernel and `malloc` answer during one call is a parameter.
mod Data
pub mod Loops
pub mod Buffers
pub mod Simple
pub mod Faults
pub mod Whole
pub mod Blocks
pub mod BlockRead
mod Examples
use linux_c_template.Prelude.{
  ℕ, zero, suc, ◌+◌, ◌-◌, ◌%◌, ◌^◌, Bool, true, false, not, ◌&&◌, ◌||◌, Option, none, some, List,
  [], ◌∷◌, ◌++◌,
}
use linux_c_template.Prelude.Tests.{ltb, leb, ◌==◌, if◌then◌else◌, is_some}
use linux_c_template.Prelude.Lists.{length, take}
use linux_c_template.Prelude.Outcome.{
  Outcome, ok, aborted, fault, deadlocked, out_of_fuel, ◌>>=◌, ◌>>◌, bug_on,
}
pub use Data.{
  Res, res_ok, res_inval, res_open, res_nomem, res_io, rrrnum_oversz, res_misc, page_sz, block_sz,
  Buffer, Easyrw, Process, Answer, error, bytes_of, Kernel,
}

-- `fio_easyrw_init`
unfoldable pub init : Option (List ℕ) → ℕ → Easyrw
init path limit = record { path = path; limit = limit; out = none; out_len = 0; out_max = 0 }

-- A buffer of `malloc(len + MY_PAGE_SZ)`; the sum is an `unsigned int`.
abbrev pub with_buffer : ℕ → Process → Process
with_buffer len p = record p {
  erw = record p.erw {
    out = some (record { cap = (len + page_sz) % 2 ^ 32; bytes = [] });
    out_len = 0;
    out_max = len;
  };
  buffers = p.buffers + 1;
}

-- `fio_easyrw_alloc_out`, and whether it fails
unfoldable pub alloc_out : Bool → ℕ → Process → Outcome (Bool × Process)
alloc_out mallocs len p = do
  bug_on (is_some p.erw.out)
  ok (if mallocs then (false, with_buffer len p) else (true, p))

-- `fio_easyrw_free_out`
unfoldable pub free_out : Process → Process
free_out p = elim p.erw.out [
  | none ↦ p
  | some _ ↦ record p {
    erw = record p.erw { out = none; out_len = 0; out_max = 0 };
    buffers = p.buffers - 1;
  }
]

-- `fio_easyrw_exit`
unfoldable pub exit : Process → Process
unfolding free_out
exit p = free_out p

-- The loop of `__fio_easyrw_read_simple`: its result, and the bytes in the buffer. A `read` that
-- writes beyond `cap` is a fault; `accl` is an `unsigned int`.
unfoldable pub simple_loop :
    (reads : ℕ → Answer) (cap expect_len fuel n accl p_unused : ℕ) → List ℕ → Outcome (Res × List ℕ)
simple_loop reads cap expect_len zero n accl p_unused buf = out_of_fuel
simple_loop reads cap expect_len (suc fuel) n accl p_unused buf = elim (reads n) [
  | error ↦ ok (res_io, buf)
  | bytes_of bs ↦
      let got = take p_unused bs in
      let accl' = (accl + length got) % 2 ^ 32 in
      let rest =
        simple_loop reads cap expect_len fuel (n + 1) accl' (p_unused - length got) (buf ++ got) in
      if length got == 0
      then ok (if not (accl == expect_len) then res_io else res_ok, buf)
      else if ltb cap (length buf + length got)
      then fault
      else if ltb expect_len accl'
      then ok (res_io, buf ++ got)
      else rest
]

-- `erw->out_len`, which is set on success only
abbrev pub len_after : Res → ℕ → ℕ → ℕ
len_after res_ok expect_len old = expect_len
len_after _ expect_len old = old

-- `__fio_easyrw_read_simple`
unfoldable pub read_simple_from : (ℕ → Answer) → ℕ → ℕ → Process → Outcome (Res × Process)
unfolding simple_loop
read_simple_from reads fuel expect_len p = elim p.erw.out [
  | none ↦ aborted
  | some b ↦ do
    bug_on (p.erw.out_max == 0)
    bug_on (not (p.erw.out_len == 0))
    (res, bytes) ← simple_loop reads b.cap expect_len fuel 0 0 p.erw.out_max b.bytes
    ok (
      res,
      record p {
        erw = record p.erw {
          out = some (record b { bytes = bytes });
          out_len = len_after res expect_len p.erw.out_len;
        };
      },
    )
]

abbrev pub is_ok : Res → Bool
is_ok res_ok = true
is_ok _ = false

-- The end of both functions: on an error the buffer is freed, and the descriptor is closed.
unfoldable pub close_after : Res × Process → Res × Process
unfolding free_out
close_after (res, p) =
    let q = if is_ok res then p else free_out p in (res, record q { fds = q.fds - 1 })

-- `open` and what follows it in `fio_easyrw_read_simple`
unfoldable pub open_simple : Kernel → ℕ → ℕ → Process → Outcome (Res × Process)
unfolding free_out read_simple_from close_after
open_simple k fuel size p =
    if k.opens
    then (do
      done ← read_simple_from k.reads fuel (size % 2 ^ 32) (record p { fds = p.fds + 1 })
      ok (close_after done))
    else ok (res_open, free_out p)

-- What `fio_easyrw_read_simple` does with the file that `stat` describes
unfoldable pub load_simple : Kernel → ℕ → Bool × ℕ → Process → Outcome (Res × Process)
unfolding alloc_out open_simple
load_simple k fuel (regular, size) p =
    if not regular
    then ok (res_open, p)
    else if not (p.erw.limit == 0) && ltb p.erw.limit size
    then ok (rrrnum_oversz, p)
    else (do
      (failed, q) ← alloc_out k.mallocs (size % 2 ^ 32) p
      if failed then ok (res_nomem, q) else open_simple k fuel size q)

unfoldable pub stat_simple :
    Kernel → ℕ → Option (List ℕ) → Option (Bool × ℕ) → Process → Outcome (Res × Process)
unfolding load_simple
stat_simple k fuel none st p = ok (res_inval, p)
stat_simple k fuel (some path) none p = ok (res_open, p)
stat_simple k fuel (some path) (some st) p = load_simple k fuel st p

-- `fio_easyrw_read_simple`
unfoldable pub read_simple : Kernel → ℕ → Process → Outcome (Res × Process)
unfolding free_out stat_simple
read_simple k fuel p = stat_simple k fuel p.erw.path k.stat (free_out p)

-- The loop of `__fio_easyrw_read`: its result, and the blocks that were handed to `func`, the last at
-- the end. `stops n b` tells whether the `n`-th call of `func`, on the block `b`, asks to stop.
unfoldable pub block_loop :
    (reads : ℕ → Answer) (stops : ℕ → List ℕ → Bool) (limit out_max fuel n accl : ℕ)
    → List (List ℕ)
    → Outcome (Res × List (List ℕ))
block_loop reads stops limit out_max zero n accl blocks = out_of_fuel
block_loop reads stops limit out_max (suc fuel) n accl blocks = elim (reads n) [
  | error ↦ ok (res_io, blocks)
  | bytes_of bs ↦
      let got = take out_max bs in
      let accl' = (accl + length got) % 2 ^ 64 in
      let rest = block_loop reads stops limit out_max fuel (n + 1) accl' (blocks ++ got ∷ []) in
      if length got == 0
      then ok (res_ok, blocks)
      else if not (limit == 0) && ltb limit accl'
      then ok (rrrnum_oversz, blocks)
      else if stops n got
      then ok (res_misc, blocks ++ got ∷ [])
      else rest
]

abbrev pub last_length : ℕ → List (List ℕ) → ℕ
last_length d [] = d
last_length d (b ∷ bs) = last_length (length b) bs

-- `__fio_easyrw_read`, with the blocks that `func` was given
unfoldable pub read_from :
    (ℕ → Answer) → (ℕ → List ℕ → Bool) → ℕ → Process → Outcome ((Res × Process) × List (List ℕ))
unfolding block_loop
read_from reads stops fuel p = elim p.erw.out [
  | none ↦ aborted
  | some b ↦ do
    bug_on (p.erw.out_max == 0)
    (res, blocks) ← block_loop reads stops p.erw.limit p.erw.out_max fuel 0 0 []
    ok (
      (res, record p { erw = record p.erw { out_len = last_length p.erw.out_len blocks } }),
      blocks,
    )
]

-- `open` and what follows it in `fio_easyrw_read`. On an error `close_after` has freed the buffer, and
-- the second `free_out` finds none.
unfoldable pub open_blocks :
    Kernel → (ℕ → List ℕ → Bool) → ℕ → Process → Outcome ((Res × Process) × List (List ℕ))
unfolding free_out read_from close_after
open_blocks k stops fuel p =
    if k.opens
    then (do
      (done, blocks) ← read_from k.reads stops fuel (record p { fds = p.fds + 1 })
      let (res, q) = close_after done
      ok ((res, free_out q), blocks))
    else ok ((res_open, free_out p), [])

unfoldable pub stat_blocks :
    Kernel
    → (ℕ → List ℕ → Bool)
    → ℕ
    → Option (List ℕ)
    → Option (Bool × ℕ)
    → Process
    → Outcome ((Res × Process) × List (List ℕ))
unfolding alloc_out open_blocks
stat_blocks k stops fuel none st p = ok ((res_inval, p), [])
stat_blocks k stops fuel (some path) none p = ok ((res_open, p), [])
stat_blocks k stops fuel (some path) (some (regular, size)) p =
    if not regular then ok ((res_open, p), []) else (do
      (failed, q) ← alloc_out k.mallocs block_sz p
      if failed then ok ((res_nomem, q), []) else open_blocks k stops fuel q)

-- `fio_easyrw_read`
unfoldable pub read :
    Kernel → (ℕ → List ℕ → Bool) → ℕ → Process → Outcome ((Res × Process) × List (List ℕ))
unfolding free_out stat_blocks
read k stops fuel p = stat_blocks k stops fuel p.erw.path k.stat (free_out p)
