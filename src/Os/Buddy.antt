-- ===== src/Os/Buddy.antt =====
-- The calls that include/Scheduler.hpp makes of include/BuddyAllocator.hpp: the buddy allocator as
-- the scheduler's interface `Memory`.
pub mod Orders
pub mod Runs
mod Tests
use memory_allocator.Memory.Buddy.{Logs, BuddyAllocator}
use memory_allocator.Memory.Buddy
use memory_allocator.Os.Scheduler.{Memory}

abbrev pub memory : Logs → Memory BuddyAllocator
memory logs = record {
  allocate = Buddy.allocate logs;
  free = Buddy.free logs;
  offset_of = Buddy.offset_of;
  block_size_for_request = Buddy.block_size_for_request logs;
}
