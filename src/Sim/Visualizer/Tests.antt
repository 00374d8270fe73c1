-- ===== src/Sim/Visualizer/Tests.antt =====
-- The visualizer's demo on small inputs.
use memory_allocator.Base.{
  ℕ, zero, suc, ◌+◌, ◌≡◌, refl, true, Option, none, some, List, [], ◌∷◌, map,
}
use memory_allocator.Sched.Process.{
  new, terminated, cpu, io, Burst, Process, never, advance_burst, enter_burst, current_burst,
}
use memory_allocator.Sched.RoundRobin
use memory_allocator.Sim.Demo.{
  over, start, arrivals, arrive, admitted, enqueue, completions, complete, after_io, finish,
  retries, retry_one, preempt, schedule, run_one, after_cpu, next_burst, round, run_rounds,
}
use memory_allocator.Sim.Demo.Places.{phases}
use memory_allocator.Sim.Scheduling.{all_done}
use memory_allocator.Sim.Visualizer.{
  Memory, Machine, construct, find_free, find_free_frame, lookup_tlb, update_tlb,
  invalidate_tlb_for_pid, invalidate_tlb_for_pfn, evict, replace, fill, fault, walk, translate,
  free_frames, exit_process, target_vpn, access, resource, main,
}
use memory_allocator.Sim.Visualizer.Coherence.{Owns, IsCoherent, construct-IsCoherent}
use memory_allocator.Sim.Visualizer.Access.{translate-Owns}
use memory_allocator.Sim.Visualizer.Processes.{AliveIn, main-IsCoherent}

abbrev reached : Memory → Option (ℕ × Memory) → Memory
reached vm none = vm
reached vm (some (pfn, next)) = next

abbrev frame_of : Option (ℕ × Memory) → Option ℕ
frame_of none = none
frame_of (some (pfn, vm)) = some pfn

-- A process uses its pages from 0 on, `n` of them.
abbrev used : ℕ → ℕ → Memory → Memory
used zero pid vm = vm
used (suc n) pid vm = let before = used n pid vm in reached before (translate before pid n)

-- The first process uses one page and ends, and the second fills the memory.
abbrev refilled : Memory
refilled = used 32 2 (exit_process (used 1 1 construct) 1)

-- The next page takes frame 0, where the oldest page is, and so does the one after it, although the
-- page in frame 0 is then the newest: the queue still has the frame from before.
newest_leaves :
    let next = translate refilled 2 40 in
    (frame_of next ≡ some 0) × (frame_of (translate (reached refilled next) 2 41) ≡ some 0)
unfolding construct find_free find_free_frame lookup_tlb update_tlb invalidate_tlb_for_pid
    invalidate_tlb_for_pfn evict replace fill fault walk translate free_frames exit_process
newest_leaves = (refl, refl)

abbrev job : ℕ → List Burst → Process
job arrival bursts = record {
  pid = 1;
  arrival = arrival;
  priority = 1;
  bursts = bursts;
  cur_burst = 0;
  burst_remaining = 2;
  state = new;
  first_run = never;
  finish = 0;
  wait_ticks = 0;
  io_ticks = 0;
  ctx_switches = 0;
}

abbrev two_jobs : List Process
two_jobs =
    job 0 (
      record { kind = cpu; ticks = 2 }
      ∷ record { kind = io; ticks = 2 }
      ∷ record { kind = cpu; ticks = 1 }
      ∷ [])
    ∷ job 1 (record { kind = cpu; ticks = 2 } ∷ [])
    ∷ []

abbrev draw : ℕ → ℕ
draw n = n + 3

abbrev machine : Machine
machine = record { vm = construct; drawn = 0 }

-- Both end by tick 5, and the frames are free.
both_end :
    let m = run_rounds (resource draw) 6 (start machine two_jobs) in
    (map (λ p. p.state) m.procs ≡ terminated ∷ terminated ∷ [])
    × (m.tick ≡ 5)
    × (m.resource.vm.frame_owner 0 ≡ none)
unfolding construct find_free find_free_frame lookup_tlb update_tlb invalidate_tlb_for_pid
    invalidate_tlb_for_pfn evict replace fill fault walk translate free_frames exit_process
    target_vpn access resource start arrivals arrive admitted enqueue completions complete after_io
    finish retries retry_one preempt schedule run_one after_cpu next_burst round run_rounds all_done
    advance_burst enter_burst current_burst RoundRobin.construct RoundRobin.add RoundRobin.pick_next
    RoundRobin.should_preempt
both_end = (refl, refl, refl)

abbrev FirstLives : ℕ → Type 0
FirstLives pid = pid ≡ 1

translate-Owns_example :
    (pfn : ℕ) × (vm : Memory) × (translate construct 1 4 ≡ some (pfn, vm))
    × Owns vm 1 4 pfn
    × IsCoherent FirstLives vm
translate-Owns_example =
    translate-Owns FirstLives construct 1 4 (construct-IsCoherent FirstLives) refl

main-IsCoherent_example :
    let m = main draw 7 two_jobs in
    (over (resource draw) m ≡ true)
    × IsCoherent (AliveIn (phases m.procs)) m.resource.vm
    × (all_done m.procs ≡ true → (f : ℕ) → m.resource.vm.frame_owner f ≡ none)
main-IsCoherent_example = main-IsCoherent draw 7 two_jobs (refl, (refl, tt))
