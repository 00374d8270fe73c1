-- ===== src/Os/Buddy/Tests.antt =====
-- The scheduler over the buddy allocator, on small inputs.
use memory_allocator.Base.{ℕ, ◌+◌, ◌^◌, ◌≡◌, refl, true, some, List, [], ◌∷◌, All, arith}
use memory_allocator.Memory.VirtualMemory.{VirtualMemory}
use memory_allocator.Memory.Buddy.{BuddyAllocator}
use memory_allocator.Memory.Buddy.Weights.{bytes, covers}
use memory_allocator.Memory.Buddy.Allocate.{free_weight}
use memory_allocator.Memory.Buddy.Clients.{IsPlaced}
use memory_allocator.Memory.Buddy.Ownership.{start}
use memory_allocator.Memory.Buddy.SearchLogs.{search_logs, search_logs-LogLaws}
use memory_allocator.Os.Process.{new, Burst, Process}
use memory_allocator.Os.Scheduler.{Scheduler, run, all_terminated, add_processes, construct}
use memory_allocator.Os.Scheduler.Runs.{IsFresh}
use memory_allocator.Os.Scheduler.Shares.{shares}
use memory_allocator.Os.Buddy.{memory}
use memory_allocator.Os.Buddy.Runs.{covering, run_returns_memory}

-- Four blocks of 64 bytes.
abbrev storage : VirtualMemory
storage = record { ptr = 4096; size = 4096 }

storage-IsPlaced : IsPlaced 6 2 storage
storage-IsPlaced = omega arith

abbrev job : ℕ → List Burst → Process
job request bursts = record {
  id = 1;
  arrival_tick = 0;
  memory_request = request;
  bursts = bursts;
  current_burst = 0;
  remaining_cpu_ticks = 0;
  remaining_io_ticks = 0;
  state = new;
  mem_ptr = 0;
  mem_offset = 0;
  mem_block_size = 0;
}

abbrev work : List Process
work =
    job 100 (record { cpu_ticks = 3; io_ticks = 2 } ∷ record { cpu_ticks = 1; io_ticks = 0 } ∷ [])
    ∷ job 200 (record { cpu_ticks = 2; io_ticks = 0 } ∷ [])
    ∷ []

work-IsFresh : All IsFresh work
work-IsFresh = ((refl, refl, omega arith), ((refl, refl, omega arith), tt))

run_returns_memory_example :
    (t : Scheduler BuddyAllocator) × (run
        (memory search_logs)
        20
        (add_processes (construct (start search_logs 6 2 storage) 2) work)
      ≡ some t)
    × ((a : ℕ)
        → free_weight (covers 6 a) 2 t.allocator + covering a (shares t.all_processes)
          ≡ covers 6 a 2 4096)
    × (all_terminated t.all_processes ≡ true → free_weight (bytes 6) 2 t.allocator ≡ 2 ^ (6 + 2))
run_returns_memory_example =
    run_returns_memory search_logs search_logs-LogLaws 6 2 storage storage-IsPlaced (omega arith) 2
      20 work work-IsFresh
