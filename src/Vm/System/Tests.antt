-- ===== src/Vm/System/Tests.antt =====
-- The virtual memory simulator on small inputs, with the LRU policy.
use memory_allocator.Base.{ℕ, ◌≡◌, refl, true, false, Option, none, some, [], ◌∷◌}
use memory_allocator.Base.Bits.{add64}
use memory_allocator.Vm.Lru
use memory_allocator.Vm.Lru.{Lru}
use memory_allocator.Vm.PageTable
use memory_allocator.Vm.Tlb
use memory_allocator.Vm.FrameAllocator
use memory_allocator.Vm.System.{
  Policy, default_costs, AccessResult, VmSystem, construct, table_of, set_table, holder,
  erase_first, unload, unload_all, load, evict, load_evicted, load_allocated, page_fault, walk,
  after_tlb, access, run_trace,
}
use memory_allocator.Vm.System.Costs.{access_counts}
use memory_allocator.Vm.System.Repeat.{access_again}

abbrev lru : Policy Lru
lru = record {
  on_load = Lru.on_load;
  on_access = Lru.on_access;
  victim = λ p. (Lru.victim p, p);
  on_evict = Lru.on_evict;
}

abbrev fresh : VmSystem Lru
fresh = construct 2 Lru.empty default_costs

abbrev state_of : Option (AccessResult × VmSystem Lru) → VmSystem Lru
state_of none = fresh
state_of (some (r, s)) = s

abbrev one_page : VmSystem Lru
one_page = state_of (access lru fresh 1 5 true)

abbrev fault : AccessResult
fault = record {
  tlb_hit = false;
  page_fault = true;
  evicted = false;
  dirty_evict = false;
  cost_ns = 10000101;
}

first_faults : access lru fresh 1 5 true ≡ some (fault, one_page)
unfolding access after_tlb walk page_fault load_allocated load construct table_of set_table
    Lru.on_load Lru.empty PageTable.lookup PageTable.write Tlb.construct Tlb.lookup Tlb.find Tlb.hit
    Tlb.insert Tlb.store FrameAllocator.construct FrameAllocator.alloc
first_faults = refl

abbrev three_pages : Option (VmSystem Lru)
three_pages = run_trace lru (5 ∷ 6 ∷ 5 ∷ 7 ∷ 6 ∷ []) fresh

abbrev counters : Option (VmSystem Lru) → ℕ × ℕ
counters none = (0, 0)
counters (some s) = (s.faults, s.hits)

-- With two frames the third page takes the frame of page 6, and page 6 faults again.
lru_trace : counters three_pages ≡ (4, 1)
unfolding run_trace evict load_evicted unload_all unload holder erase_first Lru.victim Lru.on_evict
    Lru.on_access Tlb.replace Tlb.invalidate Tlb.erase Tlb.count_miss access after_tlb walk
    page_fault load_allocated load construct table_of set_table Lru.on_load Lru.empty
    PageTable.lookup PageTable.write Tlb.construct Tlb.lookup Tlb.find Tlb.hit Tlb.insert Tlb.store
    FrameAllocator.construct FrameAllocator.alloc
lru_trace = refl

access_counts_example :
    (one_page.hits ≡ 0) × (one_page.faults ≡ 1) × (fault.tlb_hit ≡ true → fault.page_fault ≡ false)
unfolding construct
access_counts_example = access_counts lru 1 5 true fresh first_faults

access_again_example :
    (q : AccessResult) × (u : VmSystem Lru) × (access lru one_page 1 5 false ≡ some (q, u))
    × (q.tlb_hit ≡ true)
    × (q.page_fault ≡ false)
    × (q.cost_ns ≡ add64 one_page.costs.tlb_ns one_page.costs.mem_ns)
access_again_example = access_again lru 1 5 true false fresh first_faults
