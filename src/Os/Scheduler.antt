-- ===== src/Os/Scheduler.antt =====
-- include/Scheduler.hpp. The allocator is an interface, `Memory`. The event log, which nothing
-- reads, is left out. `none` stands for what the source leaves undefined: a process that is run, or
-- whose current burst is read, out of range. An index out of range in the waiting list, which the
-- code would read as well, leaves the list.
pub mod Queues
pub mod Admission
pub mod Slices
pub mod Runs
pub mod Shares
pub mod Holdings
mod Tests
use memory_allocator.Base.{
  ℕ, zero, suc, ◌+◌, ◌-◌, min, ltb, leb, ◌==◌, if◌then◌else◌, ◌&&◌, Bool, true, false, Option, none,
  some, List, [], ◌∷◌, ◌++◌, get_elem?, set,
}
use memory_allocator.Os.Process.{
  ProcessState, new, ready, running, waiting, terminated, Burst, Process, has_more_bursts,
}

-- What the scheduler calls of BuddyAllocator.
pub record Memory (A : Type 0) : Type 0 where
  pub allocate : A → ℕ → Option ℕ × A
  pub free : A → ℕ → ℕ → A
  pub offset_of : A → ℕ → ℕ
  pub block_size_for_request : A → ℕ → ℕ

pub record Scheduler (A : Type 0) : Type 0 where
  pub allocator : A
  pub quantum : ℕ
  pub tick : ℕ
  pub all_processes : List Process
  pub ready_queue : List ℕ
  pub waiting_list : List ℕ

abbrev pub is_new : ProcessState → Bool
is_new new = true
is_new ready = false
is_new running = false
is_new waiting = false
is_new terminated = false

abbrev pub is_terminated : ProcessState → Bool
is_terminated new = false
is_terminated ready = false
is_terminated running = false
is_terminated waiting = false
is_terminated terminated = true

unfoldable pub construct : {A : Type 0} → A → ℕ → Scheduler A
construct allocator quantum = record {
  allocator = allocator;
  quantum = quantum;
  tick = 0;
  all_processes = [];
  ready_queue = [];
  waiting_list = [];
}

unfoldable pub add_process : {A : Type 0} → Scheduler A → Process → Scheduler A
add_process s p = record s { all_processes = s.all_processes ++ p ∷ [] }

-- Adding processes one after the other.
unfoldable pub add_processes : {A : Type 0} → Scheduler A → List Process → Scheduler A
unfolding add_process
add_processes s [] = s
add_processes s (p ∷ ps) = add_processes (add_process s p) ps

unfoldable pub all_terminated : List Process → Bool
all_terminated [] = true
all_terminated (p ∷ rest) = is_terminated p.state && all_terminated rest

-- The test that ends the loop of Run early.
unfoldable pub unless_over :
    {A : Type 0}
    → Option (Scheduler A)
    → (Scheduler A → Option (Scheduler A))
    → Option (Scheduler A)
unfolding all_terminated
unless_over none next = none
unless_over (some t) next = if all_terminated t.all_processes then some t else next t

-- One round of ServiceIoQueue, for the process at an index of the waiting list: whether it stays in
-- the list, the processes and the ready queue.
unfoldable pub serve : Option Process → ℕ → List Process → List ℕ → Bool × List Process × List ℕ
serve none i procs queue = (false, procs, queue)
serve (some p) i procs queue =
    let left = p.remaining_io_ticks - 1 in
    if left == 0
    then (
      false,
      set procs i (record p { remaining_io_ticks = left; state = ready }),
      queue ++ i ∷ [],
    )
    else (true, set procs i (record p { remaining_io_ticks = left }), queue)

-- The loop, for the indices of the waiting list: those that stay, the processes and the ready
-- queue.
unfoldable pub service_io : List ℕ → List Process → List ℕ → List ℕ × List Process × List ℕ
unfolding serve
service_io [] procs queue = ([], procs, queue)
service_io (i ∷ rest) procs queue =
    let (stays, ps, q) = serve (get_elem? procs i) i procs queue in
    let (w, qs, r) = service_io rest ps q in (if stays then i ∷ w else w, qs, r)

module _ {A : Type 0} (memory : Memory A) where
  -- What an answer of the allocator makes of a process, and whether it was admitted.
  unfoldable pub admit_with : Process → Option ℕ × A → Process × A × Bool
  admit_with p (none, a) = (p, a, false)
  admit_with p (some ptr, a) = (
    record p {
      mem_ptr = ptr;
      mem_offset = memory.offset_of a ptr;
      mem_block_size = memory.block_size_for_request a p.memory_request;
      state = ready;
    },
    a,
    true,
  )

  unfoldable pub admit : ℕ → Process → A → Process × A × Bool
  unfolding admit_with
  admit tick p a =
      if is_new p.state && leb p.arrival_tick tick
      then admit_with p (memory.allocate a p.memory_request)
      else (p, a, false)

  -- The loop of AdmitPendingProcesses, over the processes from index `i` on.
  unfoldable pub admit_pending : ℕ → ℕ → List Process → A → List ℕ → List Process × A × List ℕ
  unfolding admit
  admit_pending tick i [] a queue = ([], a, queue)
  admit_pending tick i (p ∷ rest) a queue =
      let (q, b, admitted) = admit tick p a in
      let (qs, c, r) =
        admit_pending tick (suc i) rest b (if admitted then queue ++ i ∷ [] else queue) in
      (q ∷ qs, c, r)

  -- Back to the ready queue.
  unfoldable pub requeue : Scheduler A → ℕ → Process → Scheduler A
  requeue s i p = record s {
    all_processes = set s.all_processes i (record p { state = ready });
    ready_queue = s.ready_queue ++ i ∷ [];
  }

  unfoldable pub request_io : Scheduler A → ℕ → Process → ℕ → Scheduler A
  request_io s i p io_ticks = record s {
    all_processes = set s.all_processes i (record p {
      state = waiting;
      remaining_io_ticks = io_ticks;
      current_burst = suc p.current_burst;
    });
    waiting_list = s.waiting_list ++ i ∷ [];
  }

  unfoldable pub terminate : Scheduler A → ℕ → Process → Scheduler A
  terminate s i p = record s {
    allocator = memory.free s.allocator p.mem_ptr p.mem_block_size;
    all_processes = set s.all_processes i (record p { state = terminated });
  }

  -- Another CPU burst without I/O before it, or the end.
  unfoldable pub next_burst : Scheduler A → ℕ → Process → Scheduler A
  unfolding requeue terminate
  next_burst s i p = if has_more_bursts p then requeue s i p else terminate s i p

  -- What follows the ticks of a slice.
  unfoldable pub after_run : Scheduler A → ℕ → Process → Burst → Scheduler A
  unfolding requeue request_io next_burst
  after_run s i p b =
      if ltb 0 p.remaining_cpu_ticks
      then requeue s i p
      else if ltb 0 b.io_ticks
      then request_io s i p b.io_ticks
      else next_burst s i (record p { current_burst = suc p.current_burst })

  unfoldable pub run_burst : Scheduler A → ℕ → Process → Option Burst → Option (Scheduler A)
  unfolding after_run
  run_burst s i p none = none
  run_burst s i p (some b) =
      let due = if p.remaining_cpu_ticks == 0 then b.cpu_ticks else p.remaining_cpu_ticks in
      let ran = min s.quantum due in
      some (after_run s i (record p { state = running; remaining_cpu_ticks = due - ran }) b)

  unfoldable pub run_process : Scheduler A → ℕ → Option Process → Option (Scheduler A)
  unfolding run_burst
  run_process s i none = none
  run_process s i (some p) = run_burst s i p (get_elem? p.bursts p.current_burst)

  -- RunOneCpuSlice, for the queue as it stands.
  unfoldable pub run_slice : List ℕ → Scheduler A → Option (Scheduler A)
  unfolding run_process
  run_slice [] s = some s
  run_slice (i ∷ rest) s =
      run_process (record s { ready_queue = rest }) i (get_elem? s.all_processes i)

  -- The body of the loop of Run, up to the test.
  unfoldable pub run_tick : Scheduler A → Option (Scheduler A)
  unfolding admit_pending service_io run_slice
  run_tick s =
      let (ps, a, q) = admit_pending s.tick 0 s.all_processes s.allocator s.ready_queue in
      let (w, qs, r) = service_io s.waiting_list ps q in
      run_slice r
        (record s { allocator = a; all_processes = qs; ready_queue = r; waiting_list = w })

  -- The loop, with `left` of its rounds to go.
  unfoldable pub run : ℕ → Scheduler A → Option (Scheduler A)
  unfolding run_tick unless_over
  run zero s = some s
  run (suc left) s = unless_over (run_tick s) λ t. run left (record t { tick = suc t.tick })
