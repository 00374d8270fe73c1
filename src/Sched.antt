-- ===== src/Sched.antt =====
-- The processes and the scheduling policies of memlab/include/memlab/sched.
pub mod Policy
pub mod Fcfs
pub mod RoundRobin
pub mod Mlfq
pub mod PriorityQueue
pub mod Sjf
pub mod Srtf
pub mod Priority
pub mod Process
