-- ===== src/Vm/Tlb/Tests.antt =====
-- The TLB on small inputs.
use memory_allocator.Base.{ℕ, ◌≤◌, ◌≡◌, refl, false, none, some, length, arith}
use memory_allocator.Vm.Tlb.{
  Tlb, construct, insert, lookup, flush_pid, find, store, replace, evict, oldest_of, erase,
}
use memory_allocator.Vm.Tlb.Mapping.{
  maps, same, Keeps, insert-capacity, insert-maps, flush_pid-maps, lookup-maps,
}

-- Two pages of process 1 in a TLB of two entries; a hit on the first makes the second the oldest.
abbrev two_pages : Tlb
two_pages = insert (insert (construct 2) 1 5 70) 1 6 71

abbrev touched : Tlb
touched = (lookup two_pages 1 5).1

evicts_the_oldest : maps (insert touched 2 8 72) 1 6 ≡ none
unfolding insert lookup construct find store replace evict oldest_of erase
evicts_the_oldest = refl

insert-capacity_test : length (insert touched 2 8 72).map ≤ 2
unfolding insert lookup construct find store replace evict oldest_of erase
insert-capacity_test = insert-capacity touched 2 8 72 (omega arith) (omega arith)

insert-maps_test :
    (maps (insert touched 2 8 72) 2 8 ≡ some 72)
    × ((p v : ℕ)
        → same p v 2 8 ≡ false
        → Keeps (maps (insert touched 2 8 72) p v) (maps touched p v))
insert-maps_test = insert-maps touched 2 8 72

flush_pid-maps_test : maps (flush_pid touched 1) 1 5 ≡ none
flush_pid-maps_test = flush_pid-maps touched 1 1 5

lookup-maps_test :
    ((lookup two_pages 1 5).0 ≡ maps two_pages 1 5)
    × ((p v : ℕ) → maps touched p v ≡ maps two_pages p v)
lookup-maps_test = lookup-maps two_pages 1 5
