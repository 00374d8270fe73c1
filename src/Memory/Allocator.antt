-- ===== src/Memory/Allocator.antt =====
-- include/MemoryAllocator.hpp, Allocator<T>. The global buddy allocator is passed in and out.
pub mod Sizes
use memory_allocator.Base.{ℕ, ◌-◌, ◌*◌, ◌/◌, ◌%◌, ◌^◌, ltb, if◌then◌else◌, Option, none, some}
use memory_allocator.Memory.Buddy.{BuddyAllocator, Logs}
use memory_allocator.Memory.Buddy

-- What `allocate` returns or throws, with the allocator after it.
pub data Allocated : Type 0 where
  ok : ℕ → BuddyAllocator → Allocated
  bad_array_new_length : BuddyAllocator → Allocated
  bad_alloc : BuddyAllocator → Allocated

-- The bytes of `n` objects, on `size_t`.
abbrev pub bytes_of : ℕ → ℕ → ℕ
bytes_of sizeof_t n = (n * sizeof_t) % 2 ^ 64

abbrev pub answered : Option ℕ × BuddyAllocator → Allocated
answered (none, b) = bad_alloc b
answered (some ptr, b) = ok ptr b

unfoldable pub allocate : Logs → ℕ → BuddyAllocator → ℕ → Allocated
allocate logs sizeof_t b n =
    if ltb ((2 ^ 64 - 1) / sizeof_t) n
    then bad_array_new_length b
    else answered (Buddy.allocate logs b (bytes_of sizeof_t n))

unfoldable pub deallocate : Logs → ℕ → BuddyAllocator → ℕ → ℕ → BuddyAllocator
deallocate logs sizeof_t b p n = Buddy.free logs b p (bytes_of sizeof_t n)
