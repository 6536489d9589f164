-- ===== src/Fio/Easyrw/Data.antt =====
-- The data of template-v1/src/lgu/fio/fio_easyrw.h: the reader, its process and what the kernel answers.
use linux_c_template.Prelude.{ℕ, Bool, Option, List}

-- `fio_easyrw_res_t`
pub data Res : Type 0 where
  res_ok res_inval res_open res_nomem res_io rrrnum_oversz res_misc : Res

-- `MY_PAGE_SZ`
abbrev pub page_sz : ℕ
page_sz = 4096

-- The size of the block buffer of `fio_easyrw_read`.
abbrev pub block_sz : ℕ
block_sz = 8192

-- A block of `malloc`: its size, and the bytes written to it so far.
pub record Buffer : Type 0 where
  pub cap : ℕ
  pub bytes : List ℕ

-- `struct fio_easyrw`, less `fd`, which no function uses after `fio_easyrw_init`.
pub record Easyrw : Type 0 where
  pub path : Option (List ℕ)
  pub limit : ℕ
  pub out : Option Buffer
  pub out_len : ℕ
  pub out_max : ℕ

-- The reader, with the number of descriptors that the process has open and of buffers that it has
-- allocated.
pub record Process : Type 0 where
  pub erw : Easyrw
  pub fds : ℕ
  pub buffers : ℕ

-- What a `read` would deliver if it were asked for enough; no bytes are the end of the file.
pub data Answer : Type 0 where
  error : Answer
  bytes_of : List ℕ → Answer

-- The answers of `stat` (failure, or whether the file is regular and its size), `malloc` and `open`
-- (success), and the `n`-th `read`.
pub record Kernel : Type 0 where
  pub stat : Option (Bool × ℕ)
  pub mallocs : Bool
  pub opens : Bool
  pub reads : ℕ → Answer
