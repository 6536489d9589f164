-- ===== src/Fio/Easyrw/Buffers.antt =====
-- The output buffer of template-v1/src/lgu/fio/fio_easyrw.c: allocated and freed.
use linux_c_template.Prelude.{ℕ, ◌+◌, ◌≡◌, none, arith}
use linux_c_template.Prelude.Tests.{if◌then◌else◌, is_some}
use linux_c_template.Fio.Easyrw.{Process, free_out}

-- The reader owns its buffer and `others` buffers stand beside it.
abbrev pub Owns : ℕ → Process → Type 0
Owns others p = p.buffers ≡ others + (if is_some p.erw.out then 1 else 0)

-- The reader has no buffer, and the rest is as in `p`.
pub record Clean (others : ℕ) (p q : Process) : Type 0 where
  pub no_out : q.erw.out ≡ none
  pub buffers : q.buffers ≡ others
  pub fds : q.fds ≡ p.fds
  pub path : q.erw.path ≡ p.erw.path
  pub limit : q.erw.limit ≡ p.erw.limit

pub free_out-Clean : (others : ℕ) (p : Process) → Owns others p → Clean others p (free_out p)
unfolding free_out
free_out-Clean others p own = ground arith
