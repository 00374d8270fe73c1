-- ===== src/Vm.antt =====
-- The virtual-memory simulator of memlab/: frames, page tables, the TLB and replacement.
pub mod FrameAllocator
pub mod Tlb
pub mod Fifo
pub mod Lru
pub mod Clock
pub mod Optimal
pub mod PageTable
pub mod Region
pub mod System
pub mod Workloads
