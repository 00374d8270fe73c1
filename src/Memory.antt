-- ===== src/Memory.antt =====
-- The allocators of include/.
pub mod Utils
pub mod VirtualMemory
pub mod LinearArena
pub mod StackArena
pub mod FreeList
pub mod Pool
pub mod Slab
pub mod Buddy
pub mod Allocator
pub mod LockFree
