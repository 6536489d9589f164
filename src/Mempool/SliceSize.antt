-- ===== src/Mempool/SliceSize.antt =====
-- `mempool_calc_slice_size` of template-v1/src/mempool/mempool.c, on a machine with 8-byte pointers.
use linux_c_template.Prelude.{ℕ, ◌+◌, ◌-◌, ◌%◌, ◌^◌, ◌≤◌, ◌<◌, ◌≡◌, not, arith}
use linux_c_template.Prelude.Tests.{ltb, ◌==◌, if◌then◌else◌}

-- `magic`, four bytes of padding, and the two pointers of `list`
abbrev pub sizeof_mempool_slice : ℕ
sizeof_mempool_slice = 24

-- `ALIGN_TO_N`, sizeof(unsigned long)
abbrev pub align_to_n : ℕ
align_to_n = 8

-- `unsigned int`, so the sum at the end wraps
unfoldable pub calc_slice_size : ℕ → ℕ
calc_slice_size input =
    let real_size = if ltb input sizeof_mempool_slice then sizeof_mempool_slice else input in
    let padding =
      if not (real_size % align_to_n == 0) then align_to_n - real_size % align_to_n else 0 in
    (real_size + padding) % 2 ^ 32

-- For a request of at most 2^32 - 8 bytes, the size that `mempool_calc_slice_size` returns has room
-- for the request and for the header of a free slice, is a multiple of 8, and is the least such
-- size.
pub calc_slice_size_bounds :
    (input : ℕ)
    → input ≤ 2 ^ 32 - 8
    → (input ≤ calc_slice_size input)
      × (sizeof_mempool_slice ≤ calc_slice_size input)
      × (calc_slice_size input % align_to_n ≡ 0)
      × ((n : ℕ)
          → input ≤ n
          → sizeof_mempool_slice ≤ n
          → n % align_to_n ≡ 0
          → calc_slice_size input ≤ n)
unfolding calc_slice_size
calc_slice_size_bounds input h = ground arith

-- For a request of more than 2^32 - 8 bytes, in 32 bits, `mempool_calc_slice_size` wraps to 0.
pub calc_slice_size-wraps :
    (input : ℕ) → 2 ^ 32 - 8 < input → input < 2 ^ 32 → calc_slice_size input ≡ 0
unfolding calc_slice_size
calc_slice_size-wraps input lo hi = ground arith
