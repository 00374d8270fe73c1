-- ===== src/Sim/Workload.antt =====
-- memlab/sim/sched_sim_main.cpp, WorkloadType and make_workload, over the random numbers of
-- Base/Random.
pub mod Made
mod Tests
use memory_allocator.Base.{
  ℕ, zero, suc, ◌+◌, ◌%◌, ◌==◌, if◌then◌else◌, Bool, true, false, List, [], ◌∷◌,
}
use memory_allocator.Base.Random.{Random}
use memory_allocator.Sched.Process.{new, cpu, io, Burst, Process, never}

pub data WorkloadType : Type 0 where
  cpu_heavy : WorkloadType
  io_heavy : WorkloadType
  mixed : WorkloadType

abbrev pub num_bursts : WorkloadType → ℕ
num_bursts cpu_heavy = 3
num_bursts io_heavy = 7
num_bursts mixed = 5

-- The ends of the distribution of a burst's ticks.
abbrev pub ticks_between : WorkloadType → Bool → ℕ × ℕ
ticks_between cpu_heavy true = (10, 40)
ticks_between cpu_heavy false = (2, 8)
ticks_between io_heavy true = (2, 6)
ticks_between io_heavy false = (10, 30)
ticks_between mixed is_cpu = (5, 20)

abbrev pub first_ticks : List Burst → ℕ
first_ticks [] = 0
first_ticks (b ∷ rest) = b.ticks

module _ {G : Type 0} (random : Random G) where
  unfoldable pub make_burst : WorkloadType → ℕ → G → Burst × G
  make_burst type b g =
      let is_cpu = b % 2 == 0 in
      let (lo, hi) = ticks_between type is_cpu in
      let (t, h) = random.uniform lo hi g in
      (record { kind = if is_cpu then cpu else io; ticks = t }, h)

  -- The inner loop, for `left` bursts from `b` on.
  unfoldable pub bursts_from : WorkloadType → ℕ → ℕ → G → List Burst × G
  unfolding make_burst
  bursts_from type zero b g = ([], g)
  bursts_from type (suc left) b g =
      let (x, h) = make_burst type b g in
      let (rest, k) = bursts_from type left (suc b) h in (x ∷ rest, k)

  unfoldable pub make_process : WorkloadType → ℕ → G → Process × G
  unfolding bursts_from
  make_process type i g =
      let (arrival, h) = random.uniform 0 10 g in
      let (priority, k) = random.uniform 1 5 h in
      let (bursts, l) = bursts_from type (num_bursts type) 0 k in
      (
        record {
          pid = i + 1;
          arrival = arrival;
          priority = priority;
          bursts = bursts;
          cur_burst = 0;
          burst_remaining = first_ticks bursts;
          state = new;
          first_run = never;
          finish = 0;
          wait_ticks = 0;
          io_ticks = 0;
          ctx_switches = 0;
        },
        l,
      )

  -- The loop, for `left` processes from index `i` on.
  unfoldable pub processes_from : WorkloadType → ℕ → ℕ → G → List Process
  unfolding make_process
  processes_from type zero i g = []
  processes_from type (suc left) i g =
      let (p, h) = make_process type i g in p ∷ processes_from type left (suc i) h

  unfoldable pub make_workload : WorkloadType → ℕ → ℕ → List Process
  unfolding processes_from
  make_workload type n seed = processes_from type n 0 (random.seeded seed)
