-- ===== src/Sim.antt =====
-- The simulators of memlab/sim.
pub mod FirstFit
pub mod Workload
pub mod Scheduling
pub mod Demo
pub mod Contiguous
pub mod Visualizer
