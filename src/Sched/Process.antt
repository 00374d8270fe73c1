-- ===== src/Sched/Process.antt =====
-- memlab/include/memlab/sched/process.hpp. Numbers of ticks have 32 bits. The name and the memory
-- size of a process are left out: nothing reads them but the trace and the demo of Sim/Contiguous,
-- where the size is a parameter.
pub mod Bursts
mod Tests
use memory_allocator.Base.{
  ℕ, ◌+◌, ◌-◌, ◌%◌, ◌^◌, ◌==◌, ltb, if◌then◌else◌, Bool, true, false, Option, none, some, List, [],
  ◌∷◌, length, get_elem?,
}
use memory_allocator.Base.Bits.{add64}

pub data State : Type 0 where
  new : State
  ready : State
  running : State
  waiting : State
  terminated : State

pub data BurstType : Type 0 where
  cpu : BurstType
  io : BurstType
  page_fault : BurstType

pub record Burst : Type 0 where
  pub kind : BurstType
  pub ticks : ℕ

pub record Process : Type 0 where
  pub pid : ℕ
  pub arrival : ℕ
  pub priority : ℕ
  pub bursts : List Burst
  pub cur_burst : ℕ
  pub burst_remaining : ℕ
  pub state : State
  pub first_run : ℕ
  pub finish : ℕ
  pub wait_ticks : ℕ
  pub io_ticks : ℕ
  pub ctx_switches : ℕ

-- `UINT32_MAX`
abbrev pub never : ℕ
never = 2 ^ 32 - 1

abbrev pub add32 : ℕ → ℕ → ℕ
add32 a b = (a + b) % 2 ^ 32

abbrev pub sub32 : ℕ → ℕ → ℕ
sub32 a b = (a + 2 ^ 32 - b) % 2 ^ 32

abbrev turnaround : Process → ℕ
turnaround p = sub32 p.finish p.arrival

abbrev response : Process → ℕ
response p = if p.first_run == never then 0 else sub32 p.first_run p.arrival

-- The loop of `total_cpu_burst`, with the total so far.
unfoldable pub cpu_ticks : ℕ → List Burst → ℕ
cpu_ticks t [] = t
cpu_ticks t (b ∷ rest) =
    cpu_ticks (elim b.kind [ cpu ↦ add32 t b.ticks | io ↦ t | page_fault ↦ t ]) rest

unfoldable pub total_cpu_burst : Process → ℕ
unfolding cpu_ticks
total_cpu_burst p = cpu_ticks 0 p.bursts

-- The burst that `advance_burst` finds after it has moved on.
unfoldable pub enter_burst : Process → Option Burst → Bool × Process
enter_burst p none = (false, p)
enter_burst p (some b) = (true, record p { burst_remaining = b.ticks })

unfoldable pub advance_burst : Process → Bool × Process
unfolding enter_burst
advance_burst p =
    let next = add64 p.cur_burst 1 in
    enter_burst (record p { cur_burst = next }) (get_elem? p.bursts next)

unfoldable pub has_more_bursts : Process → Bool
has_more_bursts p = ltb p.cur_burst (length p.bursts)

unfoldable pub current_burst : Process → Option Burst
current_burst p = get_elem? p.bursts p.cur_burst
