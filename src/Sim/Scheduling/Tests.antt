-- ===== src/Sim/Scheduling/Tests.antt =====
-- The simulation on small inputs.
use memory_allocator.Base.{ℕ, ◌+◌, ◌*◌, ◌≤◌, ◌≡◌, refl, true, List, [], ◌∷◌, map, get_elem?, arith}
use memory_allocator.Sched.Process.{
  State, new, terminated, cpu, io, Burst, Process, never, advance_burst, enter_burst, current_burst,
}
use memory_allocator.Sched.Fcfs.Arrivals
use memory_allocator.Sched.Fcfs.Arrivals.{fcfs-IsInOrder}
use memory_allocator.Sched.Fcfs.{Fcfs, empty, add, pick_next, should_preempt}
use memory_allocator.Sim.Scheduling.{
  Policy, blind, Simulation, max_ticks, reset, start, all_done, reset_all, settle, enqueue, arrive,
  arrivals, after_io, complete, completions, preempt, switch, resume, start_next, dispatch,
  next_burst, after_cpu, burst_over, run_one, collect, round, over, run_rounds, simulate,
}
use memory_allocator.Sim.Scheduling.Totals.{simulate_ends}
use memory_allocator.Sim.Scheduling.Places.{released, waits, IsKeeper, InPlace}
use memory_allocator.Sched.Mlfq
use memory_allocator.Sched.RoundRobin
use memory_allocator.Sched.RoundRobin.Turns.{round_robin}
use memory_allocator.Sim.Scheduling.Fifo.{mlfq, without_policy, mlfq_is_round_robin}
use memory_allocator.Sim.Scheduling.Keepers.{in_order-IsKeeper}
use memory_allocator.Sim.Scheduling.Rounds.{rounds-InPlace}

abbrev fcfs : Policy Fcfs
fcfs = blind Arrivals.fcfs

abbrev keeper : IsKeeper fcfs
keeper = in_order-IsKeeper Arrivals.fcfs fcfs-IsInOrder

abbrev job : ℕ → List Burst → Process
job arrival bursts = record {
  pid = 1;
  arrival = arrival;
  priority = 1;
  bursts = bursts;
  cur_burst = 0;
  burst_remaining = 0;
  state = new;
  first_run = never;
  finish = 0;
  wait_ticks = 0;
  io_ticks = 0;
  ctx_switches = 0;
}

abbrev two_jobs : List Process
two_jobs =
    job 0 (
      record { kind = cpu; ticks = 3 }
      ∷ record { kind = io; ticks = 2 }
      ∷ record { kind = cpu; ticks = 1 }
      ∷ [])
    ∷ job 2 (record { kind = cpu; ticks = 2 } ∷ [])
    ∷ []

abbrev states : Simulation Fcfs → List State
states m = map (λ p. p.state) m.procs

-- Without a cost both end by tick 6.
both_end :
    let m = run_rounds fcfs 8 0 (start empty two_jobs) in
    (states m ≡ terminated ∷ terminated ∷ []) × (m.tick ≡ 6) × (m.useful_ticks ≡ 6)
unfolding run_rounds start reset_all reset settle all_done round collect arrivals arrive completions
    complete after_io enqueue preempt dispatch start_next switch resume run_one burst_over after_cpu
    next_burst advance_burst enter_burst current_burst empty add pick_next should_preempt
both_end = (refl, refl, refl)

-- With a cost of 5 the first switch burns the tick at which the second process arrives, which is
-- then never started.
arrival_is_lost :
    let m = run_rounds fcfs 8 5 (start empty two_jobs) in states m ≡ terminated ∷ new ∷ []
unfolding run_rounds start reset_all reset settle all_done round collect arrivals arrive completions
    complete after_io enqueue preempt dispatch start_next switch resume run_one burst_over after_cpu
    next_burst advance_burst enter_burst current_burst empty add pick_next should_preempt
arrival_is_lost = refl

simulate_ends_example :
    let m = simulate fcfs 5 empty two_jobs in
    (over fcfs m ≡ true)
    × (m.useful_ticks + m.cs_overhead ≤ m.tick)
    × (m.total_cs * 5 ≡ m.cs_overhead)
    × (m.tick ≤ max_ticks + 5)
simulate_ends_example = simulate_ends fcfs 5 empty two_jobs (omega arith)

-- After four rounds, for the first process.
rounds-InPlace_example :
    let m = run_rounds fcfs 4 5 (start empty two_jobs) in
    InPlace (keeper.held m.sched 0) (released m.running 0) (waits m.waiting 0) (get_elem? m.procs 0)
unfolding empty fcfs-IsInOrder
rounds-InPlace_example = rounds-InPlace fcfs keeper 5 4 empty two_jobs (omega arith) (λ j. refl) 0

mlfq_is_round_robin_example :
    without_policy (simulate (blind mlfq) 5 (Mlfq.construct 4 100) two_jobs)
    ≡ without_policy (simulate (blind round_robin) 5 (RoundRobin.construct 4) two_jobs)
mlfq_is_round_robin_example = mlfq_is_round_robin 4 100 5 two_jobs (omega arith)
