-- ===== src/Memory/Utils.antt =====
-- include/MemoryUtils.hpp, AlignUp and AlignPtr, and the same functions of
-- memlab/include/memlab/common/cacheline.hpp. A pointer is its address, a number of 64 bits.
pub mod Bounds
mod Tests
use memory_allocator.Base.{ℕ, bit_and, Bool, ◌==◌}
use memory_allocator.Base.Bits.{add64, sub64, not64}

-- `(size + alignment - 1) & ~(alignment - 1)`, on `size_t`.
pub align_up : ℕ → ℕ → ℕ
align_up size alignment = bit_and (sub64 (add64 size alignment) 1) (not64 (sub64 alignment 1))

pub align_ptr : ℕ → ℕ → ℕ
unfolding align_up
align_ptr ptr alignment = align_up ptr alignment

-- `memlab::align_up`
pub cacheline_align_up : ℕ → ℕ → ℕ
cacheline_align_up v align = bit_and (sub64 (add64 v align) 1) (not64 (sub64 align 1))

-- `memlab::is_aligned`
pub is_aligned : ℕ → ℕ → Bool
is_aligned ptr align = bit_and ptr (sub64 align 1) == 0
