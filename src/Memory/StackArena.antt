-- ===== src/Memory/StackArena.antt =====
-- include/StackArena.hpp. The template's `Size` is the field `capacity`, and `buffer` is the
-- address of the array.
pub mod Refine
mod Tests
use memory_allocator.Base.{ℕ, ltb, if◌then◌else◌, Option, none, some}
use memory_allocator.Base.Bits.{add64, sub64}
use memory_allocator.Memory.Utils.{align_ptr}

pub record StackArena : Type 0 where
  pub buffer : ℕ
  pub capacity : ℕ
  pub offset : ℕ

pub construct : ℕ → ℕ → StackArena
construct buffer capacity = record { buffer = buffer; capacity = capacity; offset = 0 }

pub allocate : StackArena → ℕ → ℕ → Option ℕ × StackArena
allocate a size alignment =
    let current_ptr = add64 a.buffer a.offset in
    let aligned_ptr = align_ptr current_ptr alignment in
    let new_offset = add64 (sub64 aligned_ptr a.buffer) size in
    if ltb a.capacity new_offset
    then (none, a)
    else (some aligned_ptr, record a { offset = new_offset })

pub reset : StackArena → StackArena
reset a = record a { offset = 0 }

pub get_used_memory : StackArena → ℕ
get_used_memory a = a.offset

pub get_capacity : StackArena → ℕ
get_capacity a = a.capacity
