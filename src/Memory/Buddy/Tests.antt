-- ===== src/Memory/Buddy/Tests.antt =====
-- An allocator of four blocks of 64 bytes.
use memory_allocator.Base.{
  ℕ, ◌+◌, ◌-◌, ◌%◌, ◌≤◌, ◌<◌, ◌≡◌, refl, some, none, List, [], ◌∷◌, true, arith,
}
use memory_allocator.Memory.VirtualMemory.{VirtualMemory}
use memory_allocator.Memory.FreeList.Segments.{member}
use memory_allocator.Memory.Buddy.Weights.{bytes, covers}
use memory_allocator.Memory.Buddy.Allocate.{free_weight}
use memory_allocator.Memory.Buddy.Clients.{IsPlaced, held_weight, Reach, here, next, take}
use memory_allocator.Memory.Buddy.SearchLogs.{least, search_logs, search_logs-LogLaws}
use memory_allocator.Memory.Buddy.Ownership.{
  start, covered_once, bytes_conserved, allocate_grants, allocate_refuses, merge_unaligned,
}
use memory_allocator.Memory.Buddy.{
  BuddyAllocator, block_size, construct, get_order, allocate, allocate_internal, free,
  free_internal, block_size_for_request, merge_of,
}

-- Four blocks of 64 bytes.
abbrev storage : VirtualMemory
storage = record { ptr = 4096; size = 4096 }

storage-IsPlaced : IsPlaced 6 2 storage
storage-IsPlaced = omega arith

abbrev fresh : BuddyAllocator
fresh = start search_logs 6 2 storage

abbrev after_one : BuddyAllocator
after_one = (allocate search_logs fresh 100).1

order_100 : get_order search_logs fresh 100 ≡ 1
unfolding get_order least construct
order_100 = refl

split_runs : (allocate search_logs fresh 100).0 ≡ some 4096
unfolding allocate allocate_internal get_order least construct
split_runs = refl

free_runs : (free search_logs after_one 4096 100).free_lists 2 ≡ 4096 ∷ []
unfolding allocate free allocate_internal free_internal get_order least construct
free_runs = refl

abbrev held : List (ℕ × ℕ)
held = (4096, get_order search_logs fresh 100) ∷ []

one_taken : Reach search_logs fresh after_one held
unfolding allocate allocate_internal get_order least construct
one_taken = next here (take 100 refl)

covered_once_example :
    ((a : ℕ)
      → free_weight (covers 6 a) 2 after_one + held_weight (covers 6 a) held ≡ covers 6 a 2 4096)
    × ((k x i : ℕ)
        → k ≤ 2
        → member x (after_one.free_lists k) ≡ true
        → i < 8
        → (covers 6 (x + i) k x ≡ 1)
          × (covers 6 (x + i) 2 4096 ≡ 1)
          × (free_weight (covers 6 (x + i)) 2 after_one ≡ 1)
          × (held_weight (covers 6 (x + i)) held ≡ 0))
covered_once_example =
    covered_once search_logs 6 2 storage search_logs-LogLaws storage-IsPlaced one_taken

bytes_conserved_test : free_weight (bytes 6) 2 after_one + held_weight (bytes 6) held ≡ 256
bytes_conserved_test =
    bytes_conserved search_logs 6 2 storage search_logs-LogLaws storage-IsPlaced one_taken

second_grant :
    allocate search_logs after_one 60 ≡ (some 4224, (allocate search_logs after_one 60).1)
unfolding allocate allocate_internal get_order least construct
second_grant = refl

allocate_grants_example :
    let given = block_size_for_request search_logs after_one 60 in
    (60 ≤ given) × (4096 ≤ 4224) × (4224 + given ≤ 4352) × ((4224 - 4096) % given ≡ 0)
allocate_grants_example =
    allocate_grants search_logs 6 2 storage search_logs-LogLaws storage-IsPlaced one_taken 60
      (omega arith) second_grant

too_large : allocate search_logs after_one 200 ≡ (none, after_one)
unfolding allocate allocate_internal get_order least construct
too_large = refl

allocate_refuses_example :
    (after_one ≡ after_one)
    × ((k : ℕ) → get_order search_logs after_one 200 ≤ k → k ≤ 2 → after_one.free_lists k ≡ [])
allocate_refuses_example =
    allocate_refuses search_logs 6 2 storage search_logs-LogLaws storage-IsPlaced one_taken 200
      too_large

-- Storage that starts at an odd multiple of 64 bytes.
abbrev shifted : BuddyAllocator
shifted = record {
  storage = record { ptr = 4160; size = 4096 };
  min_block_size = 64;
  max_order = 2;
  free_lists = λ _. [];
}

merge_unaligned_example : merge_of shifted 4160 0 < 4160
unfolding block_size
merge_unaligned_example = merge_unaligned shifted 0 6 (omega arith) refl (omega arith) refl
