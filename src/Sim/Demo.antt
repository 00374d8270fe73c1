-- ===== src/Sim/Demo.antt =====
-- The loop of `main` that memlab/sim/contiguous_demo.cpp and memlab/sim/visualizer_demo.cpp have in
-- common, over an interface, `Resource`, of what a process is given when it arrives, uses while it
-- runs and leaves when it ends. A pointer to a process is the process's index, and its pid is the
-- index plus one; an index out of range, which no pointer is, is passed over. The trace is left
-- out. Numbers of ticks have 32 bits.
pub mod Places
pub mod Moves
pub mod Loops
pub mod Ticks
pub mod Rounds
use memory_allocator.Base.{
  ℕ, zero, suc, ltb, ◌==◌, if◌then◌else◌, not, ◌&&◌, Bool, true, false, Option, none, some, List,
  [], ◌∷◌, ◌++◌, get_elem?, set, length,
}
use memory_allocator.Sched.Process.{
  new, ready, waiting, terminated, Burst, Process, add32, sub32, advance_burst, current_burst,
}
use memory_allocator.Sched.RoundRobin.{RoundRobin}
use memory_allocator.Sched.RoundRobin
use memory_allocator.Sim.Scheduling.{is_new, is_io, all_done}

-- `admit` is `none` where the process has to wait. `access` is given the tick.
pub record Resource (R : Type 0) : Type 0 where
  pub admit : R → ℕ → Option R
  pub access : R → ℕ → ℕ → R
  pub release : R → ℕ → R

pub record Demo (R : Type 0) : Type 0 where
  pub resource : R
  pub sched : RoundRobin
  pub procs : List Process
  pub tick : ℕ
  pub running : Option ℕ
  pub ran : ℕ
  pub io_wait : List (ℕ × ℕ)
  pub mem_wait : List ℕ

abbrev pub max_ticks : ℕ
max_ticks = 1000

-- The variables before the loop; both programs give the policy a quantum of 4.
unfoldable pub start : {R : Type 0} → R → List Process → Demo R
unfolding RoundRobin.construct
start r procs = record {
  resource = r;
  sched = RoundRobin.construct 4;
  procs = procs;
  tick = 0;
  running = none;
  ran = 0;
  io_wait = [];
  mem_wait = [];
}

module _ {R : Type 0} (resource : Resource R) where
  unfoldable pub enqueue : Demo R → ℕ → Process → Demo R
  unfolding RoundRobin.add
  enqueue m i p = record m {
    sched = RoundRobin.add m.sched i;
    procs = set m.procs i (record p { state = ready });
  }

  -- `try_admit`, and what follows it: a process that is not admitted waits.
  unfoldable pub admitted : Demo R → ℕ → Process → Option R → Demo R
  unfolding enqueue
  admitted m i p none = record m { mem_wait = m.mem_wait ++ i ∷ [] }
  admitted m i p (some r) = enqueue (record m { resource = r }) i p

  -- One round of the loop over the arrivals.
  unfoldable pub arrive : Demo R → ℕ → Option Process → Demo R
  unfolding admitted
  arrive m i none = m
  arrive m i (some p) =
      if is_new p.state && p.arrival == m.tick
      then admitted m i p (resource.admit m.resource i)
      else m

  -- The loop, for `left` processes from index `i` on.
  unfoldable pub arrivals : ℕ → ℕ → Demo R → Demo R
  unfolding arrive
  arrivals zero i m = m
  arrivals (suc left) i m = arrivals left (suc i) (arrive m i (get_elem? m.procs i))

  -- The process ends.
  unfoldable pub finish : Demo R → ℕ → Process → Demo R
  finish m i p = record m {
    resource = resource.release m.resource i;
    procs = set m.procs i (record p { state = terminated });
  }

  -- The ticks of a burst, where there is one.
  abbrev pub load : Process → Option Burst → Process
  load p none = p
  load p (some b) = record p { burst_remaining = b.ticks }

  unfoldable pub after_io : Demo R → ℕ → Bool × Process → Demo R
  unfolding enqueue finish
  after_io m i (true, p) = enqueue m i (load p (current_burst p))
  after_io m i (false, p) = finish m i p

  unfoldable pub complete : Demo R → ℕ → Option Process → Demo R
  unfolding after_io
  complete m i none = m
  complete m i (some p) = after_io m i (advance_burst p)

  -- The loop over the processes that wait for I/O, with those that stay in `io_wait`.
  unfoldable pub completions : List (ℕ × ℕ) → Demo R → Demo R
  unfolding complete
  completions [] m = m
  completions ((i, ticks) ∷ rest) m =
      let left = sub32 ticks 1 in
      completions rest (
        if left == 0
        then complete m i (get_elem? m.procs i)
        else record m { io_wait = m.io_wait ++ (i, left) ∷ [] })

  unfoldable pub retry_one : Demo R → ℕ → Option Process → Demo R
  unfolding admitted
  retry_one m i none = m
  retry_one m i (some p) = admitted m i p (resource.admit m.resource i)

  -- The loop over the processes that wait for memory, with those that stay in `mem_wait`.
  unfoldable pub retries : List ℕ → Demo R → Demo R
  unfolding retry_one
  retries [] m = m
  retries (i ∷ rest) m = retries rest (retry_one m i (get_elem? m.procs i))

  abbrev pub leave : Demo R → Demo R
  leave m = record m { running = none; ran = 0 }

  unfoldable pub preempt : Demo R → Option ℕ → Option Process → Demo R
  unfolding enqueue RoundRobin.should_preempt
  preempt m none o = m
  preempt m (some i) none = m
  preempt m (some i) (some p) =
      if RoundRobin.should_preempt m.sched i m.ran then leave (enqueue m i p) else m

  abbrev pub picked : Demo R → Option ℕ × RoundRobin → Demo R
  picked m (none, s) = record m { sched = s }
  picked m (some i, s) = record m { sched = s; running = some i; ran = 0 }

  unfoldable pub schedule : Demo R → Option ℕ → Demo R
  unfolding RoundRobin.pick_next
  schedule m none = picked m (RoundRobin.pick_next m.sched)
  schedule m (some i) = m

  -- The next burst of the running process, which is for I/O or not.
  unfoldable pub next_burst : Demo R → ℕ → Process → Option Burst → Demo R
  next_burst m i p none = record m { procs = set m.procs i p }
  next_burst m i p (some b) =
      let q = record p { burst_remaining = b.ticks } in
      if is_io b.kind
      then leave (record m {
        procs = set m.procs i (record q { state = waiting });
        io_wait = m.io_wait ++ (i, b.ticks) ∷ [];
      })
      else record m { procs = set m.procs i q }

  unfoldable pub after_cpu : Demo R → ℕ → Bool × Process → Demo R
  unfolding next_burst finish
  after_cpu m i (true, p) = next_burst m i p (current_burst p)
  after_cpu m i (false, p) = leave (finish m i p)

  -- A tick of the running process.
  unfoldable pub run_one : Demo R → Option ℕ → Option Process → Demo R
  unfolding after_cpu
  run_one m none o = m
  run_one m (some i) none = m
  run_one m (some i) (some p) =
      let left = sub32 p.burst_remaining 1 in
      let q = record p { burst_remaining = left } in
      let n = record m { resource = resource.access m.resource m.tick i; ran = add32 m.ran 1 } in
      if left == 0 then after_cpu n i (advance_burst q) else record n { procs = set n.procs i q }

  abbrev pub running_process : Demo R → Option ℕ → Option Process
  running_process m none = none
  running_process m (some i) = get_elem? m.procs i

  -- The body of the loop.
  unfoldable pub round : Demo R → Demo R
  unfolding arrivals completions retries preempt schedule run_one
  round m =
      let a = arrivals (length m.procs) 0 m in
      let b = completions a.io_wait (record a { io_wait = [] }) in
      let c = retries b.mem_wait (record b { mem_wait = [] }) in
      let d = preempt c c.running (running_process c c.running) in
      let e = schedule d d.running in
      let f = run_one e e.running (running_process e e.running) in
      record f { tick = add32 f.tick 1 }

  -- Whether the loop has ended.
  abbrev pub over : Demo R → Bool
  over m = not (not (all_done m.procs) && ltb m.tick max_ticks)

  -- The loop, for at most `left` rounds.
  unfoldable pub run_rounds : ℕ → Demo R → Demo R
  unfolding round all_done
  run_rounds zero m = m
  run_rounds (suc left) m = let rest = run_rounds left (round m) in if over m then m else rest

  -- Each round takes a tick, so that the ticks are rounds enough.
  unfoldable pub run : R → List Process → Demo R
  unfolding run_rounds start
  run r procs = run_rounds max_ticks (start r procs)
