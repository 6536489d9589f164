-- ===== src/Mempool/Defs.antt =====
-- The data of template-v1/src/mempool/mempool.h: the pool and the memory that it looks at.
use linux_c_template.Prelude.{ℕ, Bool, Option, List}
use linux_c_template.Prelude.Tests.{◌==◌, if◌then◌else◌}

abbrev pub null : ℕ
null = 0

abbrev pub mempool_slice_magic : ℕ
mempool_slice_magic = 54085408

-- The heap as far as the pool looks at it: the word `magic` at the start of each block that is
-- allocated. User code may leave any word there.
abbrev pub Memory : Type 0
Memory = ℕ → Option ℕ

unfoldable pub write : Memory → ℕ → Option ℕ → Memory
write mem p w q = if q == p then w else mem q

-- `ctor` answers whether it rejects the slice. Both may write to memory.
abbrev pub Ctor : Type 0
Ctor = ℕ → Memory → Bool × Memory

abbrev pub Dtor : Type 0
Dtor = ℕ → Memory → Memory

-- `struct mempool`
pub record Mempool (Links : Type 0) : Type 0 where
  pub magic : ℕ
  pub sz : ℕ
  pub name : List ℕ
  pub ref : ℕ
  pub max : ℕ
  pub fail : ℕ
  pub ctor : Option Ctor
  pub dtor : Option Dtor
  pub locked : Bool
  pub list_free : Links

pub record State (Links : Type 0) : Type 0 where
  pub pool : Mempool Links
  pub mem : Memory
