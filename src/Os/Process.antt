-- ===== src/Os/Process.antt =====
-- include/Process.hpp. Numbers of ticks are not negative. The name, which nothing reads, is left
-- out.
use memory_allocator.Base.{ℕ, ltb, Bool, List, length}

pub data ProcessState : Type 0 where
  new : ProcessState
  ready : ProcessState
  running : ProcessState
  waiting : ProcessState
  terminated : ProcessState

-- `io_ticks` is 0 where no I/O follows.
pub record Burst : Type 0 where
  pub cpu_ticks : ℕ
  pub io_ticks : ℕ

pub record Process : Type 0 where
  pub id : ℕ
  pub arrival_tick : ℕ
  pub memory_request : ℕ
  pub bursts : List Burst
  pub current_burst : ℕ
  pub remaining_cpu_ticks : ℕ
  pub remaining_io_ticks : ℕ
  pub state : ProcessState
  pub mem_ptr : ℕ
  pub mem_offset : ℕ
  pub mem_block_size : ℕ

unfoldable pub has_more_bursts : Process → Bool
has_more_bursts p = ltb p.current_burst (length p.bursts)
