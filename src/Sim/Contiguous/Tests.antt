-- ===== src/Sim/Contiguous/Tests.antt =====
-- The contiguous demo on small inputs.
use memory_allocator.Base.{ℕ, ◌≡◌, refl, true, none, some, List, [], ◌∷◌, map, arith}
use memory_allocator.Sched.Process.{
  new, terminated, cpu, io, Burst, Process, never, advance_burst, enter_burst, current_burst,
}
use memory_allocator.Sched.RoundRobin
use memory_allocator.Sim.FirstFit
use memory_allocator.Sim.Demo.{
  over, start, arrivals, arrive, admitted, enqueue, completions, complete, after_io, finish,
  retries, retry_one, preempt, schedule, run_one, after_cpu, next_burst, round, run_rounds,
}
use memory_allocator.Sim.Demo.Places.{phases}
use memory_allocator.Sim.Scheduling.{all_done}
use memory_allocator.Sim.Contiguous.{total, Machine, try_admit, resource, main}
use memory_allocator.Sim.Contiguous.Shares.{IsShared}
use memory_allocator.Sim.Contiguous.Processes.{main-IsShared}

abbrev job : ℕ → List Burst → Process
job arrival bursts = record {
  pid = 1;
  arrival = arrival;
  priority = 1;
  bursts = bursts;
  cur_burst = 0;
  burst_remaining = 2;
  state = new;
  first_run = never;
  finish = 0;
  wait_ticks = 0;
  io_ticks = 0;
  ctx_switches = 0;
}

abbrev two_jobs : List Process
two_jobs =
    job 0 (
      record { kind = cpu; ticks = 2 }
      ∷ record { kind = io; ticks = 2 }
      ∷ record { kind = cpu; ticks = 1 }
      ∷ [])
    ∷ job 1 (record { kind = cpu; ticks = 2 } ∷ [])
    ∷ []

-- Each process takes more than half of the memory.
abbrev large : ℕ → ℕ
large i = 5000

abbrev machine : Machine
machine = record { blocks = FirstFit.construct total; allocs = λ i. none }

-- At tick 3 the second process waits for memory.
one_waits :
    let m = run_rounds (resource large) 3 (start machine two_jobs) in
    (m.mem_wait ≡ 1 ∷ []) × (m.resource.allocs 0 ≡ some 1)
unfolding FirstFit.construct FirstFit.allocate FirstFit.place FirstFit.split FirstFit.free
    FirstFit.mark FirstFit.coalesce try_admit resource start arrivals arrive admitted enqueue
    completions complete after_io finish retries retry_one preempt schedule run_one after_cpu
    next_burst round run_rounds all_done advance_burst enter_burst current_burst
    RoundRobin.construct RoundRobin.add RoundRobin.pick_next RoundRobin.should_preempt
one_waits = (refl, refl)

-- Both end, one after the other, and the memory is one free block.
both_end_in_turn :
    let m = run_rounds (resource large) 9 (start machine two_jobs) in
    (map (λ p. p.state) m.procs ≡ terminated ∷ terminated ∷ [])
    × (m.resource.blocks ≡ FirstFit.construct total)
unfolding FirstFit.construct FirstFit.allocate FirstFit.place FirstFit.split FirstFit.free
    FirstFit.mark FirstFit.coalesce try_admit resource start arrivals arrive admitted enqueue
    completions complete after_io finish retries retry_one preempt schedule run_one after_cpu
    next_burst round run_rounds all_done advance_burst enter_burst current_burst
    RoundRobin.construct RoundRobin.add RoundRobin.pick_next RoundRobin.should_preempt
both_end_in_turn = (refl, refl)

main-IsShared_example :
    let m = main large two_jobs in
    (over (resource large) m ≡ true)
    × IsShared m.resource (phases m.procs)
    × (all_done m.procs ≡ true → m.resource.blocks ≡ FirstFit.construct total)
main-IsShared_example = main-IsShared large (λ i. omega arith) two_jobs (refl, (refl, tt))
