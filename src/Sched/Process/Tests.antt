-- ===== src/Sched/Process/Tests.antt =====
-- A process of three bursts.
use memory_allocator.Base.{◌≡◌, refl, some, [], ◌∷◌, arith}
use memory_allocator.Sched.Process.{
  cpu, io, new, Burst, Process, never, cpu_ticks, total_cpu_burst, advance_burst, has_more_bursts,
  current_burst,
}
use memory_allocator.Sched.Process.Bursts.{advance_burst_lem}

abbrev worker : Process
worker = record {
  pid = 1;
  arrival = 0;
  priority = 2;
  bursts =
      record { kind = cpu; ticks = 5 }
      ∷ record { kind = io; ticks = 3 }
      ∷ record { kind = cpu; ticks = 4 }
      ∷ [];
  cur_burst = 0;
  burst_remaining = 0;
  state = new;
  first_run = never;
  finish = 0;
  wait_ticks = 0;
  io_ticks = 0;
  ctx_switches = 0;
}

cpu_only : total_cpu_burst worker ≡ 9
unfolding total_cpu_burst cpu_ticks
cpu_only = refl

advance_burst_lem_test :
    let (more, q) = advance_burst worker in
    (q.cur_burst ≡ 1)
    × (more ≡ has_more_bursts q)
    × ((b : Burst) → current_burst q ≡ some b → q.burst_remaining ≡ b.ticks)
advance_burst_lem_test = advance_burst_lem worker (omega arith) (omega arith)
