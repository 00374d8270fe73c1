-- ===== src/Sim/Scheduling.antt =====
-- memlab/sim/sched_sim_main.cpp, `simulate`. A pointer to a process is the process's index; an
-- index out of range, which no pointer is, is passed over. The policy is an interface, `Policy`.
-- Numbers of ticks have 32 bits.
pub mod Totals
pub mod Places
pub mod Collect
pub mod Steps
pub mod Rounds
pub mod Keepers
pub mod Images
pub mod Fifo
pub mod ShortestFirst
mod Tests
use memory_allocator.Base.{
  ℕ, zero, suc, ltb, ◌==◌, if◌then◌else◌, not, ◌&&◌, Bool, true, false, Option, none, some, List,
  [], ◌∷◌, ◌++◌, get_elem?, set,
}
use memory_allocator.Sched.Process.{
  State, new, ready, running, waiting, terminated, cpu, io, page_fault, Burst, BurstType, Process,
  never, add32, sub32, advance_burst, current_burst,
}
use memory_allocator.Sched.Policy.{Scheduler}

-- What the simulation calls of a policy.
pub record Policy (S : Type 0) : Type 0 where
  pub add : S → ℕ → Process → S
  pub pick_next : S → Option ℕ × S
  pub should_preempt : S → ℕ → Process → ℕ → Bool

-- A policy that reads nothing of a process.
abbrev pub blind : {S : Type 0} → Scheduler S → Policy S
blind sched = record {
  add = λ s i p. sched.add s i;
  pick_next = sched.pick_next;
  should_preempt = λ s i p ran. sched.should_preempt s i ran;
}

pub record Simulation (S : Type 0) : Type 0 where
  pub sched : S
  pub procs : List Process
  pub tick : ℕ
  pub useful_ticks : ℕ
  pub cs_overhead : ℕ
  pub total_cs : ℕ
  pub running : Option ℕ
  pub ran_ticks : ℕ
  pub waiting : List (ℕ × ℕ)

abbrev pub max_ticks : ℕ
max_ticks = 50000

abbrev first_ticks : List Burst → ℕ
first_ticks [] = 0
first_ticks (b ∷ rest) = b.ticks

unfoldable pub reset : Process → Process
reset p = record p {
  state = new;
  cur_burst = 0;
  burst_remaining = first_ticks p.bursts;
  first_run = never;
  finish = 0;
  wait_ticks = 0;
  io_ticks = 0;
  ctx_switches = 0;
}

unfoldable pub reset_all : List Process → List Process
unfolding reset
reset_all [] = []
reset_all (p ∷ rest) = reset p ∷ reset_all rest

-- The first loop, and the variables before the second.
unfoldable pub start : {S : Type 0} → S → List Process → Simulation S
unfolding reset_all
start s procs = record {
  sched = s;
  procs = reset_all procs;
  tick = 0;
  useful_ticks = 0;
  cs_overhead = 0;
  total_cs = 0;
  running = none;
  ran_ticks = 0;
  waiting = [];
}

abbrev pub is_new : State → Bool
is_new new = true
is_new ready = false
is_new running = false
is_new waiting = false
is_new terminated = false

abbrev pub is_terminated : State → Bool
is_terminated new = false
is_terminated ready = false
is_terminated running = false
is_terminated waiting = false
is_terminated terminated = true

abbrev pub is_cpu : BurstType → Bool
is_cpu cpu = true
is_cpu io = false
is_cpu page_fault = false

abbrev pub is_io : BurstType → Bool
is_io cpu = false
is_io io = true
is_io page_fault = false

unfoldable pub all_done : List Process → Bool
all_done [] = true
all_done (p ∷ rest) = is_terminated p.state && all_done rest

module _ {S : Type 0} (policy : Policy S) where
  unfoldable pub enqueue : S → ℕ → Process → S × Process
  enqueue s i p = let q = record p { state = ready } in (policy.add s i q, q)

  -- One round of the loop over the arrivals.
  unfoldable pub arrive : ℕ → S → ℕ → Process → S × Process
  unfolding enqueue
  arrive tick s i p = if is_new p.state && p.arrival == tick then enqueue s i p else (s, p)

  -- The loop, over the processes from index `i` on.
  unfoldable pub arrivals : ℕ → S → ℕ → List Process → S × List Process
  unfolding arrive
  arrivals tick s i [] = (s, [])
  arrivals tick s i (p ∷ rest) =
      let (t, q) = arrive tick s i p in let (u, qs) = arrivals tick t (suc i) rest in (u, q ∷ qs)

  -- The ticks of a burst, where there is one.
  abbrev pub load : Process → Option Burst → Process
  load p none = p
  load p (some b) = record p { burst_remaining = b.ticks }

  -- What follows an I/O burst.
  unfoldable pub after_io : ℕ → S → ℕ → Bool × Process → S × Process
  unfolding enqueue
  after_io tick s i (true, p) = enqueue s i (load p (current_burst p))
  after_io tick s i (false, p) = (s, record p { state = terminated; finish = tick })

  unfoldable pub complete : ℕ → S → ℕ → List Process → Option Process → S × List Process
  unfolding after_io
  complete tick s i procs none = (s, procs)
  complete tick s i procs (some p) =
      let (t, q) = after_io tick s i (advance_burst p) in (t, set procs i q)

  -- The process at an index has completed its I/O, or not.
  unfoldable pub settle : ℕ → S → ℕ → List Process → Bool → S × List Process
  unfolding complete
  settle tick s i procs true = complete tick s i procs (get_elem? procs i)
  settle tick s i procs false = (s, procs)

  -- The loop over the waiting processes: those that stay, the policy and the processes.
  unfoldable pub completions : ℕ → S → List Process → List (ℕ × ℕ) → List (ℕ × ℕ) × S × List Process
  unfolding settle
  completions tick s procs [] = ([], s, procs)
  completions tick s procs ((i, ticks) ∷ rest) =
      let left = sub32 ticks 1 in
      let (t, ps) = settle tick s i procs (left == 0) in
      let (w, u, qs) = completions tick t ps rest in (if left == 0 then w else (i, left) ∷ w, u, qs)

  -- The check of the quantum, for the running process.
  unfoldable pub preempt : Simulation S → Option ℕ → Option Process → Simulation S
  unfolding enqueue
  preempt m none o = m
  preempt m (some i) none = m
  preempt m (some i) (some p) =
      if policy.should_preempt m.sched i p m.ran_ticks
      then (let (t, q) = enqueue m.sched i p in
          record m { sched = t; procs = set m.procs i q; running = none; ran_ticks = 0 })
      else m

  -- The cost of a context switch.
  unfoldable pub switch : ℕ → Simulation S → Simulation S
  switch cost m =
      if ltb 0 cost
      then record m {
        tick = add32 m.tick cost;
        cs_overhead = add32 m.cs_overhead cost;
        total_cs = add32 m.total_cs 1;
      }
      else m

  -- The picked process starts to run.
  unfoldable pub resume : Simulation S → ℕ → Option Process → Simulation S
  resume m i none = m
  resume m i (some p) = record m {
    procs = set m.procs i (record p {
      first_run = if p.first_run == never then m.tick else p.first_run;
      ctx_switches = add32 p.ctx_switches 1;
      state = running;
    });
    running = some i;
    ran_ticks = 0;
  }

  unfoldable pub start_next : ℕ → Simulation S → Option ℕ × S → Simulation S
  unfolding switch resume
  start_next cost m (none, t) = record m { sched = t }
  start_next cost m (some i, t) =
      resume (switch cost (record m { sched = t })) i (get_elem? m.procs i)

  unfoldable pub dispatch : ℕ → Simulation S → Option ℕ → Simulation S
  unfolding start_next
  dispatch cost m none = start_next cost m (policy.pick_next m.sched)
  dispatch cost m (some i) = m

  -- The process at an index leaves the CPU.
  abbrev pub leave : Simulation S → ℕ → Process → Simulation S
  leave m i p = record m { procs = set m.procs i p; running = none; ran_ticks = 0 }

  -- The next burst of the running process, which is for I/O or not.
  unfoldable pub next_burst : Simulation S → ℕ → Process → Option Burst → Simulation S
  next_burst m i p none = record m { procs = set m.procs i p }
  next_burst m i p (some b) =
      let q = record p { burst_remaining = b.ticks } in
      if is_io b.kind
      then record (leave m i (record q { state = waiting })) {
        waiting = m.waiting ++ (i, b.ticks) ∷ [];
      }
      else record m { procs = set m.procs i q }

  -- What follows a CPU burst.
  unfoldable pub after_cpu : Simulation S → ℕ → Bool × Process → Simulation S
  unfolding next_burst
  after_cpu m i (true, p) = next_burst m i p (current_burst p)
  after_cpu m i (false, p) = leave m i (record p { state = terminated; finish = add32 m.tick 1 })

  unfoldable pub burst_over : Simulation S → ℕ → Process → Option Burst → Simulation S
  unfolding after_cpu
  burst_over m i p none = record m { procs = set m.procs i p }
  burst_over m i p (some b) =
      if is_cpu b.kind
      then after_cpu m i (advance_burst p)
      else record m { procs = set m.procs i p }

  -- One tick of the running process.
  unfoldable pub run_one : Simulation S → Option ℕ → Option Process → Simulation S
  unfolding burst_over
  run_one m none o = m
  run_one m (some i) none = m
  run_one m (some i) (some p) =
      let left = sub32 p.burst_remaining 1 in
      let q = record p { burst_remaining = left } in
      let n = record m { useful_ticks = add32 m.useful_ticks 1; ran_ticks = add32 m.ran_ticks 1 } in
      if left == 0 then burst_over n i q (current_burst q) else record n { procs = set n.procs i q }

  abbrev pub running_process : Simulation S → Option ℕ → Option Process
  running_process m none = none
  running_process m (some i) = get_elem? m.procs i

  -- The arrivals and the completions of a round.
  unfoldable pub collect : Simulation S → Simulation S
  unfolding arrivals completions
  collect m =
      let (s, ps) = arrivals m.tick m.sched 0 m.procs in
      let (w, t, qs) = completions m.tick s ps m.waiting in
      record m { sched = t; procs = qs; waiting = w }

  -- The body of the main loop.
  unfoldable pub round : ℕ → Simulation S → Simulation S
  unfolding collect preempt dispatch run_one
  round cost m =
      let a = collect m in
      let b = preempt a a.running (running_process a a.running) in
      let c = dispatch cost b b.running in
      let d = run_one c c.running (running_process c c.running) in
      record d { tick = add32 d.tick 1 }

  -- Whether the main loop has ended.
  abbrev pub over : Simulation S → Bool
  over m = not (not (all_done m.procs) && ltb m.tick max_ticks)

  -- The main loop, for at most `left` rounds.
  unfoldable pub run_rounds : ℕ → ℕ → Simulation S → Simulation S
  unfolding round all_done
  run_rounds zero cost m = m
  run_rounds (suc left) cost m =
      let rest = run_rounds left cost (round cost m) in if over m then m else rest

  -- The loop's rounds are at most the ticks it may take.
  unfoldable pub simulate : ℕ → S → List Process → Simulation S
  unfolding run_rounds start
  simulate cost s procs = run_rounds max_ticks cost (start s procs)
