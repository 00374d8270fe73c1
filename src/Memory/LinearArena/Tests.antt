-- ===== src/Memory/LinearArena/Tests.antt =====
use memory_allocator.Base.{ℕ, ◌+◌, ◌-◌, ◌≤◌, ◌<◌, ◌≡◌, ◌⊎◌, some, none, List, [], ◌∷◌, arith}
use memory_allocator.Memory.VirtualMemory.{VirtualMemory}
use memory_allocator.Memory.LinearArena.{LinearArena, construct, allocate, allocate_all}
use memory_allocator.Memory.LinearArena.Regions.{
  allocate_lem, requests, Separate, allocate_all-Separate, start,
}

abbrev page : VirtualMemory
page = record { ptr = 8192; size = 4096 }

abbrev used_arena : LinearArena
used_arena = record { storage = page; offset = 100 }

abbrev sizes : List (ℕ × ℕ)
sizes = (100, 3) ∷ (64, 6) ∷ (5000, 3) ∷ (8, 3) ∷ []

allocate_lem_test :
    ((start used_arena 6 + 64 ≤ 12288)
      × (allocate used_arena 64 64 ≡ (
        some (start used_arena 6),
        record used_arena { offset = start used_arena 6 - 8192 + 64 },
      )))
    ⊎ ((12288 < start used_arena 6 + 64) × (allocate used_arena 64 64 ≡ (none, used_arena)))
allocate_lem_test = allocate_lem used_arena 64 6 (omega arith) (omega arith)

allocate_all-Separate_example :
    Separate 8192 12288 (allocate_all (construct page) (requests sizes) []).0
allocate_all-Separate_example = allocate_all-Separate page sizes (omega arith) (omega arith)
