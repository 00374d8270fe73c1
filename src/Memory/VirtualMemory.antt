-- ===== src/Memory/VirtualMemory.antt =====
-- include/VirtualMemory.hpp, and AllocateVirtualMemory and FreeVirtualMemory of
-- include/MemoryUtils.hpp (the POSIX branch). What `mmap` answers is an argument; the calls of
-- `munmap` are logged, the latest last. A null pointer is 0.
pub mod Ownership
mod Tests
use memory_allocator.Base.{ℕ, ◌-◌, ◌^◌, ◌==◌, if◌then◌else◌, Bool, true, false, List, [], ◌∷◌, ◌++◌}
use memory_allocator.Memory.Utils.{align_up}

pub record VirtualMemory : Type 0 where
  pub ptr : ℕ
  pub size : ℕ

-- Address and size of each region given back to the OS.
abbrev pub Unmaps : Type 0
Unmaps = List (ℕ × ℕ)

-- `MAP_FAILED` is `(void*)-1`.
abbrev pub map_failed : ℕ
map_failed = 2 ^ 64 - 1

pub data Result {ℓ} (A : Type ℓ) : Type ℓ where
  ok : A → Result A
  runtime_error : Result A

-- `answer` is what `mmap` returns for `size` bytes.
abbrev allocate_virtual_memory : ℕ → ℕ → ℕ
allocate_virtual_memory answer size = answer

unfoldable pub free_virtual_memory : ℕ → ℕ → Unmaps → Unmaps
free_virtual_memory ptr size log = if ptr == 0 then log else log ++ (ptr, size) ∷ []

-- The default constructor.
unfoldable pub empty : VirtualMemory
empty = record { ptr = 0; size = 0 }

pub construct : ℕ → ℕ → Result VirtualMemory
construct answer size =
    let rounded = align_up size 4096 in
    let ptr = allocate_virtual_memory answer rounded in
    if ptr == 0 then runtime_error else ok (record { ptr = ptr; size = rounded })

unfoldable pub free : VirtualMemory → Unmaps → VirtualMemory × Unmaps
free v log = if v.ptr == 0 then (v, log) else (empty, free_virtual_memory v.ptr v.size log)

-- The destructor.
unfoldable pub destroy : VirtualMemory → Unmaps → Unmaps
destroy v log = (free v log).1

-- The move constructor returns the new object and the one moved from.
pub move_construct : VirtualMemory → VirtualMemory × VirtualMemory
move_construct other = (record { ptr = other.ptr; size = other.size }, empty)

-- The move assignment between two objects; `same` is the test `this == &other`.
pub move_assign :
    Bool → VirtualMemory → VirtualMemory → Unmaps → VirtualMemory × VirtualMemory × Unmaps
move_assign true this other log = (this, other, log)
move_assign false this other log =
    (record { ptr = other.ptr; size = other.size }, empty, (free this log).1)

unfoldable pub get_ptr : VirtualMemory → ℕ
get_ptr v = v.ptr

unfoldable pub get_size : VirtualMemory → ℕ
get_size v = v.size
