-- ===== src/Memory/Pool/Tests.antt =====
use memory_allocator.Base.{ℕ, ◌%◌, ◌≤◌, ◌≡◌, ◌↔◌, refl, none, [], ◌∷◌, arith}
use memory_allocator.Base.Count.{count}
use memory_allocator.Memory.VirtualMemory.{VirtualMemory}
use memory_allocator.Memory.FreeList.{link_nodes, pop_node, Heap}
use memory_allocator.Memory.FreeList.Segments.{nodes}
use memory_allocator.Memory.Pool.{PoolAllocator, slot_size, construct, allocate}
use memory_allocator.Memory.Pool.Clients.{Reach, here, next, take, slots_held_once, slot_size_lem}

abbrev page : VirtualMemory
page = record { ptr = 8192; size = 4096 }

abbrev clear : Heap
clear a = 0

abbrev fresh : PoolAllocator
fresh = construct 3 32 page clear

abbrev after_two : PoolAllocator
after_two = (allocate (allocate fresh).1).1

two_taken : Reach fresh after_two (8224 ∷ 8192 ∷ [])
unfolding construct allocate link_nodes pop_node
two_taken = next (next here (take refl)) (take refl)

slots_held_once_example :
    ((a : ℕ) → count a (8224 ∷ 8192 ∷ []) ≤ count a (nodes 2 32 8192))
    × ((a : ℕ) → count a (8224 ∷ 8192 ∷ []) ≤ 1)
    × (((allocate after_two).0 ≡ none) ↔ (◌≡◌ {A = ℕ} 2 3))
slots_held_once_example =
    slots_held_once 2 32 page clear (omega arith) (omega arith) (omega arith) (omega arith)
      two_taken

slot_size_lem_test : (20 ≤ slot_size 20 16) × (8 ≤ slot_size 20 16) × (slot_size 20 16 % 16 ≡ 0)
slot_size_lem_test = slot_size_lem 20 4 (omega arith) (omega arith)
