-- ===== src/Memory/LinearArena.antt =====
-- include/LinearArena.hpp. `none` is the null pointer; a pointer is its address.
pub mod Regions
mod Tests
use memory_allocator.Base.{ℕ, ltb, if◌then◌else◌, Option, none, some, List, [], ◌∷◌}
use memory_allocator.Base.Bits.{add64, sub64}
use memory_allocator.Memory.Utils.{align_ptr}
use memory_allocator.Memory.VirtualMemory.{VirtualMemory, get_ptr, get_size}

pub record LinearArena : Type 0 where
  pub storage : VirtualMemory
  pub offset : ℕ

-- The constructor, with the block that `VirtualMemory` obtained.
unfoldable pub construct : VirtualMemory → LinearArena
construct storage = record { storage = storage; offset = 0 }

unfoldable pub allocate : LinearArena → ℕ → ℕ → Option ℕ × LinearArena
unfolding get_ptr get_size
allocate a size alignment =
    let base = get_ptr a.storage in
    let current_ptr = add64 base a.offset in
    let aligned_ptr = align_ptr current_ptr alignment in
    let new_offset = add64 (sub64 aligned_ptr base) size in
    if ltb (get_size a.storage) new_offset
    then (none, a)
    else (some aligned_ptr, record a { offset = new_offset })

unfoldable pub reset : LinearArena → LinearArena
reset a = record a { offset = 0 }

unfoldable pub get_used_memory : LinearArena → ℕ
get_used_memory a = a.offset

unfoldable pub get_capacity : LinearArena → ℕ
unfolding get_size
get_capacity a = get_size a.storage

-- A scope with an `ArenaScope` on the arena: the body runs, then the destructor resets.
abbrev arena_scope {ℓ} :
    {A : Type ℓ} → (LinearArena → A × LinearArena) → LinearArena → A × LinearArena
unfolding reset
arena_scope body a = let (r, a') = body a in (r, reset a')

-- Requests in a row: size and alignment of each, and what was handed out, the latest first.
pub allocate_all : LinearArena → List (ℕ × ℕ) → List (ℕ × ℕ) → List (ℕ × ℕ) × LinearArena
allocate_all a [] given = (given, a)
allocate_all a ((size, alignment) ∷ rs) given =
    let (p, a') = allocate a size alignment in
    allocate_all a' rs (elim p [ none ↦ given | some q ↦ (q, size) ∷ given ])
