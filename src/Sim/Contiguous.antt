-- ===== src/Sim/Contiguous.antt =====
-- memlab/sim/contiguous_demo.cpp: the memory of its processes, from Sim/FirstFit, and its loop by
-- Sim/Demo. `mem_bytes` is the memory size of each process, by index, and `allocs` its pointer, by
-- index for its pid. The trace is left out.
pub mod Used
pub mod Shares
pub mod Processes
mod Tests
use memory_allocator.Base.{ℕ, ◌==◌, if◌then◌else◌, Option, none, some, List}
use memory_allocator.Sched.Process.{Process}
use memory_allocator.Sim.FirstFit.{Block}
use memory_allocator.Sim.FirstFit
use memory_allocator.Sim.Demo.{Resource, Demo}
use memory_allocator.Sim.Demo

abbrev pub total : ℕ
total = 8192

pub record Machine : Type 0 where
  pub blocks : List Block
  pub allocs : ℕ → Option ℕ

abbrev pub record_of : Machine → ℕ → Option ℕ × List Block → Option Machine
record_of m i (none, blocks) = none
record_of m i (some ptr, blocks) =
    some (record { blocks = blocks; allocs = λ j. if j == i then some ptr else m.allocs j })

-- A process without a pointer, which `allocs` would make null, has nothing to free.
abbrev pub released : Machine → Option ℕ → Machine
released m none = m
released m (some ptr) = record m { blocks = FirstFit.free m.blocks ptr }

module _ (mem_bytes : ℕ → ℕ) where
  unfoldable pub try_admit : Machine → ℕ → Option Machine
  unfolding FirstFit.allocate
  try_admit m i = record_of m i (FirstFit.allocate m.blocks (mem_bytes i))

  -- A process that runs does not touch its memory.
  unfoldable pub resource : Resource Machine
  unfolding try_admit FirstFit.free
  resource = record {
    admit = try_admit;
    access = λ m tick i. m;
    release = λ m i. released m (m.allocs i);
  }

  unfoldable pub main : List Process → Demo Machine
  unfolding resource FirstFit.construct Demo.run
  main procs =
      Demo.run resource (record { blocks = FirstFit.construct total; allocs = λ i. none }) procs
