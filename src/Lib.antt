-- ===== src/Lib.antt =====
-- A verification library for the memory allocators (include/) and the virtual-memory and
-- scheduling simulators (memlab/) of this repository.
--
-- Conventions: a pointer and a `size_t` are natural numbers below 2^64, with each wrap-around
-- written out (Base/Bits); null is 0, or `none` where a function returns it. A `uint32_t` sum or
-- shift that can wrap is taken modulo 2^32. An unordered map or set is an association list in its
-- order of iteration, or a function of the key where nothing iterates over it. What the OS answers
-- is an argument.
--
-- Base: tests, lists, words and counting, shared by all parts.
--
-- Memory, the allocators of include/:
-- + Memory/Utils: AlignUp and AlignPtr (include/MemoryUtils.hpp), align_up and is_aligned
--   (memlab/include/memlab/common/cacheline.hpp).
-- + Memory/VirtualMemory: VirtualMemory (include/VirtualMemory.hpp). The regions given back to the
--   OS are a log. The allocators below hold one.
-- + Memory/LinearArena, Memory/StackArena: the bump allocators (include/LinearArena.hpp,
--   include/StackArena.hpp).
-- + Memory/FreeList: lists linked through free memory, in a heap of words, as the pool and the
--   buddy allocator keep them; Segments relates them to lists of addresses.
-- + Memory/Pool: PoolAllocator (include/PoolAllocator.hpp), over that heap.
-- + Memory/Buddy: BuddyAllocator (include/BuddyAllocator.hpp), with each free list as the list of
--   its addresses. `std::log2` and `std::ceil` are the argument `Logs`, whose laws (LogLaws in
--   Buddy/Clients) are those of the mathematical functions on the sizes in use. The recursions of
--   AllocateInternal and FreeInternal visit each order at most once, so `max_order + 1` is fuel
--   enough. IsPlaced (Buddy/Clients) asks that the storage starts at a multiple of its size, which
--   FreeInternal needs and mmap does not promise, and that a smallest block has eight bytes or more:
--   PushNode writes a link of eight bytes into a free block, and nothing in the constructor refuses
--   smaller blocks. Only with that is a free list the list of its addresses.
-- + Memory/Allocator: Allocator<T> (include/MemoryAllocator.hpp), over the buddy allocator.
-- + Memory/LockFree: LockFreeFreelist and TaggedPointer (include/LockFreeFreelist.hpp,
--   include/TaggedPointer.hpp), as any number of threads interleaved at their atomic accesses. The
--   tag wraps at 2^64, and the theorems are about runs of fewer than 2^64 successful exchanges. Each
--   access sees the one before it: weaker memory orders are not modelled.
-- + Memory/Slab: SlabCache (include/SlabCache.hpp), over a heap of words as the pool. The
--   constructor of `T` is an argument, as is the storage of a new slab, and the thread-local
--   magazines are lists by thread.
--
-- Os, the scheduler of include/ over an allocator:
-- + Os/Process, Os/Scheduler: include/Process.hpp and include/Scheduler.hpp. BuddyAllocator is the
--   interface `Memory`; Run is a recursion on its rounds, and `none` is a run of a process, or a
--   read of its burst, out of range. Os/Buddy is that interface filled by Memory/Buddy.
--
-- Vm, the paging simulator of memlab/include/memlab/vm and memlab/sim/vm_sim_main.cpp:
-- + Vm/FrameAllocator, Vm/Tlb, Vm/PageTable: frame_allocator.hpp, tlb.hpp, page_table.hpp.
-- + Vm/Fifo, Vm/Lru, Vm/Clock, Vm/Optimal: the policies of vm/replacement.
-- + Vm/Region: VmemRegion (vmem_region.hpp) as compiled for Linux, with a log of the calls of the OS.
--   The loop of EagerTouch is on fuel, a round for each page and one more, which Touch shows to be
--   enough. The background thread is a sequence of rounds between calls of advance_hwm.
-- + Vm/System: VMSystem and run_sim of vm_sim_main.cpp, over an interface of policies (the record
--   Policy, for IReplacement), the TLB, the page tables and the frame allocator.
-- + Vm/Workloads: the generators of page traces of vm_sim_main.cpp. The random numbers of <random>
--   are an interface (Base/Random), with the ends of a distribution as its law.
--
-- Sched, the scheduling policies of memlab/include/memlab/sched:
-- + Sched/Policy: IScheduler (scheduler.hpp), and the policies that serve in order of arrival as an
--   interface with laws; Sched/Fcfs and Sched/RoundRobin (policies/fcfs.hpp, rr.hpp) are instances.
-- + Sched/Mlfq: policies/mlfq.hpp. Sched/Sjf, Sched/Srtf: sjf.hpp and srtf.hpp, over
--   std::priority_queue as an interface that takes the comparison, with its documented laws for
--   every strict weak order (Sched/PriorityQueue); each Cmp is translated.
--   Sched/Priority: priority.hpp, over std::push_heap and std::pop_heap; the first loop of its ageing
--   is on fuel, which Ageing shows to be enough.
-- + Sched/Process: process.hpp.
--
-- Sim, the programs of memlab/sim:
-- + Sim/FirstFit: FirstFitAllocator (contiguous_demo.cpp), on the list of its blocks.
-- + Sim/Workload: make_workload (sched_sim_main.cpp), over Base/Random.
-- + Sim/Scheduling: simulate (sched_sim_main.cpp) up to its metrics, over any policy (the record
--   Policy, for IScheduler). A process is its index. The loop may make `max_ticks` rounds, since
--   each takes a tick at least; Totals needs a cost of a context switch for which the ticks stay
--   below 2^32, as all that the program uses do.
-- + Sim/Demo: the loop that the main functions of contiguous_demo.cpp and visualizer_demo.cpp have
--   in common, over an interface of what a process holds (the record Resource, whose laws are
--   IsKept in Demo/Places). It makes at most `max_ticks` rounds, as many as its test allows.
--   Sim/Contiguous is the first program, where a process holds a block of Sim/FirstFit, and
--   Sim/Visualizer the second, where it holds frames, page tables and entries of the TLB
--   (VirtualMemorySystem); the random numbers are an argument.
--
-- Output, the files that the programs of memlab write, as bytes:
-- + Output/Csv: CsvWriter (memlab/include/memlab/common/stats.hpp).
-- + Output/Trace: TraceWriter (memlab/include/memlab/sim/trace_writer.hpp).
--
-- Clients are step relations (Clients modules, Mlfq/Levels): a client calls the operations in any
-- order and frees only what it holds; what is shown of them holds in every state they can reach.
--
-- Not modelled: what is printed, statistics, timers and affinity (system calls and floating point),
-- the calls of the event logs, the benchmarks, the experiments that the drivers run, the processes
-- that the two demos draw, and the frontend.
pub mod Base
pub mod Memory
pub mod Os
pub mod Output
pub mod Sched
pub mod Sim
pub mod Vm
