-- ===== src/Os/Scheduler/Tests.antt =====
-- The scheduler on small inputs, over an allocator that hands out addresses in order.
use memory_allocator.Base.{
  ℕ, ◌+◌, ◌≡◌, refl, Option, some, none, List, [], ◌∷◌, All, get_elem?, arith,
}
use memory_allocator.Base.Count.{count}
use memory_allocator.Os.Process.{new, Burst, Process, has_more_bursts}
use memory_allocator.Os.Scheduler.{
  Memory, Scheduler, run, run_tick, run_slice, run_process, run_burst, after_run, requeue,
  request_io, terminate, next_burst, admit_pending, admit, admit_with, service_io, serve,
  unless_over, all_terminated, add_processes, add_process, construct,
}
use memory_allocator.Os.Scheduler.Queues.{Fits}
use memory_allocator.Os.Scheduler.Runs.{IsFresh, run_stays_in_range}

abbrev counter : Memory ℕ
counter = record {
  allocate = λ a n. (some a, a + n);
  free = λ a ptr n. a;
  offset_of = λ a ptr. ptr;
  block_size_for_request = λ a n. n;
}

abbrev job : List Burst → Process
job bursts = record {
  id = 1;
  arrival_tick = 0;
  memory_request = 64;
  bursts = bursts;
  current_burst = 0;
  remaining_cpu_ticks = 0;
  remaining_io_ticks = 0;
  state = new;
  mem_ptr = 0;
  mem_offset = 0;
  mem_block_size = 0;
}

abbrev work : List Process
work =
    job (record { cpu_ticks = 3; io_ticks = 2 } ∷ record { cpu_ticks = 1; io_ticks = 0 } ∷ [])
    ∷ job (record { cpu_ticks = 2; io_ticks = 0 } ∷ [])
    ∷ []

work-IsFresh : All IsFresh work
work-IsFresh = ((refl, refl, omega arith), ((refl, refl, omega arith), tt))

run_stays_in_range_example :
    (t : Scheduler ℕ) × (run counter 20 (add_processes (construct 4096 2) work) ≡ some t)
    × ((i : ℕ)
        → Fits (count i t.ready_queue) (count i t.waiting_list) (get_elem? t.all_processes i))
run_stays_in_range_example = run_stays_in_range counter 4096 2 20 work work-IsFresh

abbrev end_of : Option (Scheduler ℕ) → Option ℕ
end_of none = none
end_of (some t) = some t.tick

-- All of it ends by tick 4.
work_ends : end_of (run counter 20 (add_processes (construct 4096 2) work)) ≡ some 4
unfolding run run_tick run_slice run_process run_burst after_run requeue request_io terminate
    next_burst has_more_bursts admit_pending admit admit_with service_io serve unless_over
    all_terminated add_processes add_process construct
work_ends = refl

-- A last burst with I/O: once the I/O is over, the process is run although it has no burst left.
io_at_the_end :
    run counter 20
      (add_processes (construct 4096 2) (job (record { cpu_ticks = 1; io_ticks = 1 } ∷ []) ∷ []))
    ≡ none
unfolding run run_tick run_slice run_process run_burst after_run requeue request_io terminate
    next_burst has_more_bursts admit_pending admit admit_with service_io serve unless_over
    all_terminated add_processes add_process construct
io_at_the_end = refl
