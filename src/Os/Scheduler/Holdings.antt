-- ===== src/Os/Scheduler/Holdings.antt =====
-- The slices, the ticks and the runs of the scheduler, and what its processes hold of the allocator.
use memory_allocator.Base.{
  ℕ, zero, suc, ◌+◌, ◌-◌, ◌≡◌, refl, sym, ap, subst, ◌∙◌, min, ltb, ◌==◌, if◌then◌else◌, true,
  Bool-cases, inl, inr, Option, none, some, List, [], ◌∷◌, ◌++◌, All, get_elem?, set, arith,
}
use memory_allocator.Base.Count.{count}
use memory_allocator.Os.Process.{
  ProcessState, new, ready, running, waiting, terminated, Burst, Process, has_more_bursts,
}
use memory_allocator.Os.Scheduler.{
  Memory, Scheduler, construct, add_processes, service_io, admit_pending, requeue, request_io,
  terminate, next_burst, after_run, run_burst, run_process, run_slice, run_tick, run, unless_over,
  all_terminated, is_terminated,
}
use memory_allocator.Os.Scheduler.Queues.{
  Fits, IsConsistent, IsConsistent-eq, count_self, Served, service-IsConsistent,
}
use memory_allocator.Os.Scheduler.Admission.{admit-IsConsistent}
use memory_allocator.Os.Scheduler.Slices.{IsValid, ready-Agree}
use memory_allocator.Os.Scheduler.Runs.{IsFresh, start-IsValid, tick-IsValid, add_processes-all}
use memory_allocator.Os.Scheduler.Shares.{
  share_in, share, shares, IsTracked, shares-split, set-shares, service-shares, admit_pending-Holds,
}

module _ {A : Type 0} {memory : Memory A} (tracked : IsTracked memory) where
  -- The allocator holds out what the processes hold.
  abbrev pub Keeps : Scheduler A → Type 1
  Keeps s = tracked.Holds s.allocator (shares s.all_processes)

  module _ (s : Scheduler A) (i : ℕ) (p : Process) (at : get_elem? s.all_processes i ≡ some p)
      (is : p.state ≡ ready) (h : Keeps s) where
    -- The process as the slice leaves it.
    abbrev later : ProcessState → ℕ → ℕ → ℕ → Process
    later state cpu_ticks io_ticks burst = record p {
      state = state;
      remaining_cpu_ticks = cpu_ticks;
      remaining_io_ticks = io_ticks;
      current_burst = burst;
    }

    held : share p ≡ (p.mem_ptr, p.mem_block_size) ∷ []
    held = ap (λ t. share_in t (p.mem_ptr, p.mem_block_size)) is

    same-Holds :
        (q : Process)
        → share q ≡ (p.mem_ptr, p.mem_block_size) ∷ []
        → tracked.Holds s.allocator (shares (set s.all_processes i q))
    same-Holds q e =
        subst (tracked.Holds s.allocator) (sym (set-shares s.all_processes i q at (e ∙ sym held))) h

    terminate-Keeps :
        (c k : ℕ) → Keeps (terminate memory s i (later running c p.remaining_io_ticks k))
    unfolding terminate
    terminate-Keeps c k =
        let (ys, zs, before, after) = shares-split s.all_processes i at in
        subst (tracked.Holds (memory.free s.allocator p.mem_ptr p.mem_block_size))
          (sym (after (later terminated c p.remaining_io_ticks k)))
          (tracked.gives s.allocator p.mem_ptr p.mem_block_size ys zs
            (subst (tracked.Holds s.allocator) (before ∙ ap (λ l. ys ++ (l ++ zs)) held) h))

    after_run-Keeps :
        (b : Burst) (c : ℕ)
        → Keeps (after_run memory s i (later running c p.remaining_io_ticks p.current_burst) b)
    unfolding after_run requeue request_io next_burst has_more_bursts
    after_run-Keeps b c =
        let q = later running c p.remaining_io_ticks p.current_burst in
        let k = suc p.current_burst in
        let next = later running c p.remaining_io_ticks k in
        elim (Bool-cases (ltb 0 c)) [
          | inl more ↦
              rw more (same-Holds (later ready c p.remaining_io_ticks p.current_burst) refl)
          | inr done ↦ rw done elim (Bool-cases (ltb 0 b.io_ticks)) [
            | inl io ↦ rw io (same-Holds (later waiting c b.io_ticks k) refl)
            | inr direct ↦ rw direct elim (Bool-cases (has_more_bursts next)) [
              | inl again ↦ rw again (same-Holds (later ready c p.remaining_io_ticks k) refl)
              | inr last ↦ rw last (terminate-Keeps c k)
            ]
          ]
        ]

    run_burst-Keeps :
        (o : Option Burst) {t : Scheduler A} → run_burst memory s i p o ≡ some t → Keeps t
    unfolding run_burst
    run_burst-Keeps none e = ground (arith, e)
    run_burst-Keeps (some b) {t} e =
        let due = if p.remaining_cpu_ticks == 0 then b.cpu_ticks else p.remaining_cpu_ticks in
        let c = due - min s.quantum due in
        let same : after_run memory s i (later running c p.remaining_io_ticks p.current_burst) b
            ≡ t =
          cc e in
        subst Keeps same (after_run-Keeps b c)

  slice-Keeps :
      (l : List ℕ) (s : Scheduler A) {t : Scheduler A}
      → l ≡ s.ready_queue
      → IsValid s
      → Keeps s
      → run_slice memory l s ≡ some t
      → Keeps t
  unfolding run_slice run_process IsValid IsConsistent
  slice-Keeps [] s {t} e v h r = let same : s ≡ t = cc r in subst Keeps same h
  slice-Keeps (i ∷ rest) s {t} e v h r =
      ran (get_elem? s.all_processes i) refl
        (subst (λ q. Fits (count i q) (count i s.waiting_list) (get_elem? s.all_processes i))
          (sym e) (v i))
        r
    where
      ran :
          (o : Option Process)
          → get_elem? s.all_processes i ≡ o
          → Fits (count i (i ∷ rest)) (count i s.waiting_list) o
          → run_process memory (record s { ready_queue = rest }) i o ≡ some t
          → Keeps t
      ran none at f x = ground (arith, x)
      ran (some p) at f x =
          let is =
            (ready-Agree p.state (count i (i ∷ rest)) (count i s.waiting_list) f.0
              (omega (arith, count_self i rest))).0 in
          run_burst-Keeps (record s { ready_queue = rest }) i p at is h
            (get_elem? p.bursts p.current_burst) x

  tick-Keeps :
      (s : Scheduler A) {t : Scheduler A}
      → IsValid s
      → Keeps s
      → run_tick memory s ≡ some t
      → Keeps t
  unfolding run_tick IsValid Served
  tick-Keeps s v h e =
      let (ps, a, q) = admit_pending memory s.tick 0 s.all_processes s.allocator s.ready_queue in
      let (w, qs, r) = service_io s.waiting_list ps q in
      let admitted =
        admit-IsConsistent memory s.tick s.all_processes s.allocator s.ready_queue
          (λ j. count j s.waiting_list) v in
      let serving =
        IsConsistent-eq ps (λ j. count j q) (λ j. count j s.waiting_list) (λ j. count j q)
          (λ j. 0 + count j s.waiting_list) (λ j. (refl, omega arith)) admitted in
      let served = service-IsConsistent s.waiting_list ps q (λ j. 0) serving in
      slice-Keeps r
        (record s { allocator = a; all_processes = qs; ready_queue = r; waiting_list = w }) refl
        (IsConsistent-eq qs (λ j. count j r) (λ j. 0 + count j w) (λ j. count j r) (λ j. count j w)
          (λ j. (refl, omega arith)) served)
        (subst (tracked.Holds a) (sym (service-shares s.waiting_list ps q (λ j. 0) serving))
          (admit_pending-Holds tracked s.tick 0 s.all_processes s.allocator s.ready_queue [] h))
        e

  run-Keeps :
      (left : ℕ) (s : Scheduler A)
      → IsValid s
      → Keeps s
      → (t : Scheduler A) × (run memory left s ≡ some t) × Keeps t
  unfolding run unless_over IsValid
  run-Keeps zero s v h = (s, refl, h)
  run-Keeps (suc left) s v h =
      let next : Scheduler A → Option (Scheduler A) =
        λ t. run memory left (record t { tick = suc t.tick }) in
      let (t, e, w) = tick-IsValid memory s v in
      let kept = tick-Keeps s v h e in
      let (u, f, x) = run-Keeps left (record t { tick = suc t.tick }) (ticked t w) kept in
      elim (Bool-cases (all_terminated t.all_processes)) [
        | inl over ↦ (t, ap (λ o. unless_over o next) e ∙ rw over refl, kept)
        | inr more ↦ (u, ap (λ o. unless_over o next) e ∙ rw more f, x)
      ]
    where
      ticked : (t : Scheduler A) → IsValid t → IsValid (record t { tick = suc t.tick })
      ticked t w = w

  fresh-shares : (ps : List Process) → All IsFresh ps → shares ps ≡ []
  fresh-shares [] h = refl
  fresh-shares (p ∷ ps) (f, h) =
      ap (λ t. share_in t (p.mem_ptr, p.mem_block_size) ++ shares ps) f.0 ∙ fresh-shares ps h

  -- A run over fresh processes returns, and the allocator holds out what they hold at its end.
  pub run-Holds :
      (a : A) (quantum max_ticks : ℕ) (ps : List Process)
      → All IsFresh ps
      → tracked.Holds a []
      → (t : Scheduler A) × (run memory max_ticks (add_processes (construct a quantum) ps) ≡ some t)
        × tracked.Holds t.allocator (shares t.all_processes)
  unfolding construct
  run-Holds a quantum max_ticks ps f h =
      run-Keeps max_ticks (add_processes (construct a quantum) ps)
        (start-IsValid memory a quantum ps f)
        (subst Keeps (sym (add_processes-all (construct a quantum) ps))
          (subst (tracked.Holds a) (sym (fresh-shares ps f)) h))

-- Processes that have all ended hold nothing.
pub all_terminated-shares : (ps : List Process) → all_terminated ps ≡ true → shares ps ≡ []
unfolding all_terminated
all_terminated-shares [] e = refl
all_terminated-shares (p ∷ ps) e =
    ap (λ l. l ++ shares ps) (ended p.state (ground (arith, e)))
    ∙ all_terminated-shares ps (ground (arith, e))
  where
    ended :
        (s : ProcessState) → is_terminated s ≡ true → share_in s (p.mem_ptr, p.mem_block_size) ≡ []
    ended new e = ground (arith, e)
    ended ready e = ground (arith, e)
    ended running e = ground (arith, e)
    ended waiting e = ground (arith, e)
    ended terminated e = refl
