-- ===== src/Os.antt =====
-- The process simulation of include/Process.hpp and include/Scheduler.hpp.
pub mod Process
pub mod Scheduler
pub mod Buddy
