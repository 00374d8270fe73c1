-- ===== src/Memory/Pool.antt =====
-- include/PoolAllocator.hpp. `sizeof(T)`, `Alignment` and the block of storage are arguments; a
-- `Node*` takes 8 bytes.
pub mod Clients
mod Tests
use memory_allocator.Base.{ℕ, ltb, ◌==◌, if◌then◌else◌, Option, none, some}
use memory_allocator.Base.Bits.{sub64}
use memory_allocator.Memory.Utils.{align_up}
use memory_allocator.Memory.VirtualMemory.{VirtualMemory, get_ptr}
use memory_allocator.Memory.FreeList.{Heap, link_nodes, FreeList, push_node, pop_node}

pub record PoolAllocator : Type 0 where
  pub num_slots : ℕ
  pub storage : VirtualMemory
  pub free_list : FreeList

pub slot_size : ℕ → ℕ → ℕ
slot_size sizeof_t alignment = align_up (if ltb 8 sizeof_t then sizeof_t else 8) alignment

-- The loop makes `numSlots_ - 1` rounds, on `size_t`.
pub construct : ℕ → ℕ → VirtualMemory → Heap → PoolAllocator
unfolding get_ptr
construct num_slots slot storage h = record {
  num_slots = num_slots;
  storage = storage;
  free_list = record {
    first = get_ptr storage;
    heap = link_nodes (sub64 num_slots 1) slot (get_ptr storage) h;
  };
}

pub allocate : PoolAllocator → Option ℕ × PoolAllocator
allocate p =
    if p.free_list.first == 0
    then (none, p)
    else (let (node, l) = pop_node p.free_list in (some node, record p { free_list = l }))

pub free : PoolAllocator → ℕ → PoolAllocator
free p ptr = if ptr == 0 then p else record p { free_list = push_node p.free_list ptr }

pub get_capacity : PoolAllocator → ℕ
get_capacity p = p.num_slots
