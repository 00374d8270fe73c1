-- ===== src/Sim/Scheduling/Images.antt =====
-- Two policies that correspond by a function give the same simulation.
use memory_allocator.Base.{
  ℕ, zero, suc, ◌≡◌, refl, ap, ◌∙◌, ltb, ◌==◌, ◌&&◌, if◌then◌else◌, Bool, true, false, Option, none,
  some, List, [], ◌∷◌, ◌++◌, get_elem?, set,
}
use memory_allocator.Sched.Process.{
  ready, waiting, Burst, Process, add32, sub32, advance_burst, current_burst,
}
use memory_allocator.Sim.Scheduling.{
  Policy, Simulation, max_ticks, is_new, is_io, is_cpu, enqueue, arrive, arrivals, load, after_io,
  complete, settle, completions, preempt, switch, resume, start_next, dispatch, next_burst,
  after_cpu, burst_over, run_one, running_process, collect, round, over, run_rounds, start,
  simulate,
}

pub record IsMap {S T : Type 0} (p : Policy S) (q : Policy T) (f : S → T) : Type 0 where
  pub adds : (s : S) (i : ℕ) (x : Process) → q.add (f s) i x ≡ f (p.add s i x)
  pub picks : (s : S) → q.pick_next (f s) ≡ ((p.pick_next s).0, f (p.pick_next s).1)
  pub preempts :
      (s : S) (i : ℕ) (x : Process) (n : ℕ)
      → q.should_preempt (f s) i x n ≡ p.should_preempt s i x n

-- The simulation with another state of the policy.
abbrev pub image : {S T : Type 0} → (S → T) → Simulation S → Simulation T
image f m = record {
  sched = f m.sched;
  procs = m.procs;
  tick = m.tick;
  useful_ticks = m.useful_ticks;
  cs_overhead = m.cs_overhead;
  total_cs = m.total_cs;
  running = m.running;
  ran_ticks = m.ran_ticks;
  waiting = m.waiting;
}

ap_if :
    {A B : Type 0} (g : A → B) (b : Bool) (x y : A)
    → (if b then g x else g y) ≡ g (if b then x else y)
ap_if g true x y = refl
ap_if g false x y = refl

module _ {S T : Type 0} (p : Policy S) (q : Policy T) (f : S → T) (map : IsMap p q f) where
  abbrev via : {A : Type 0} → S × A → T × A
  via (s, a) = (f s, a)

  enqueue-via : (s : S) (i : ℕ) (x : Process) → enqueue q (f s) i x ≡ via (enqueue p s i x)
  unfolding enqueue
  enqueue-via s i x = let y = record x { state = ready } in ap (λ t. (t, y)) (map.adds s i y)

  arrive-via :
      (tick : ℕ) (s : S) (i : ℕ) (x : Process) → arrive q tick (f s) i x ≡ via (arrive p tick s i x)
  unfolding arrive
  arrive-via tick s i x =
      let now = is_new x.state && x.arrival == tick in
      ap (λ y. if now then y else (f s, x)) (enqueue-via s i x)
      ∙ ap_if via now (enqueue p s i x) (s, x)

  arrivals-via :
      (tick : ℕ) (s : S) (i : ℕ) (xs : List Process)
      → arrivals q tick (f s) i xs ≡ via (arrivals p tick s i xs)
  unfolding arrivals
  arrivals-via tick s i [] = refl
  arrivals-via tick s i (x ∷ xs) =
      let (t, y) = arrive p tick s i x in
      ap (λ z. let (u, ys) = arrivals q tick z.0 (suc i) xs in (u, z.1 ∷ ys))
        (arrive-via tick s i x)
      ∙ ap (λ v. (v.0, y ∷ v.1)) (arrivals-via tick t (suc i) xs)

  after_io-via :
      (tick : ℕ) (s : S) (i : ℕ) (a : Bool × Process)
      → after_io q tick (f s) i a ≡ via (after_io p tick s i a)
  unfolding after_io
  after_io-via tick s i (true, x) = enqueue-via s i (load p x (current_burst x))
  after_io-via tick s i (false, x) = refl

  complete-via :
      (tick : ℕ) (s : S) (i : ℕ) (xs : List Process) (o : Option Process)
      → complete q tick (f s) i xs o ≡ via (complete p tick s i xs o)
  unfolding complete
  complete-via tick s i xs none = refl
  complete-via tick s i xs (some x) =
      ap (λ z. (z.0, set xs i z.1)) (after_io-via tick s i (advance_burst x))

  settle-via :
      (tick : ℕ) (s : S) (i : ℕ) (xs : List Process) (b : Bool)
      → settle q tick (f s) i xs b ≡ via (settle p tick s i xs b)
  unfolding settle
  settle-via tick s i xs true = complete-via tick s i xs (get_elem? xs i)
  settle-via tick s i xs false = refl

  completions-via :
      (tick : ℕ) (s : S) (xs : List Process) (l : List (ℕ × ℕ))
      → let (w, u, ys) = completions p tick s xs l in completions q tick (f s) xs l ≡ (w, f u, ys)
  unfolding completions
  completions-via tick s xs [] = refl
  completions-via tick s xs ((i, ticks) ∷ l) =
      let left = sub32 ticks 1 in
      let (t, ys) = settle p tick s i xs (left == 0) in
      ap
        (λ z.
          let (w, u, zs) = completions q tick z.0 z.1 l in
          (if left == 0 then w else (i, left) ∷ w, u, zs))
        (settle-via tick s i xs (left == 0))
      ∙ ap (λ v. (if left == 0 then v.0 else (i, left) ∷ v.0, v.1, v.2))
          (completions-via tick t ys l)

  collect-image : (m : Simulation S) → collect q (image f m) ≡ image f (collect p m)
  unfolding collect
  collect-image m =
      let (s, ps) = arrivals p m.tick m.sched 0 m.procs in
      ap
        (λ z.
          let (w, t, qs) = completions q m.tick z.0 z.1 m.waiting in
          record (image f m) { sched = t; procs = qs; waiting = w })
        (arrivals-via m.tick m.sched 0 m.procs)
      ∙ ap (λ v. record (image f m) { sched = v.1; procs = v.2; waiting = v.0 })
          (completions-via m.tick s ps m.waiting)

  preempt-image :
      (m : Simulation S) (r : Option ℕ) (o : Option Process)
      → preempt q (image f m) r o ≡ image f (preempt p m r o)
  unfolding preempt
  preempt-image m none o = refl
  preempt-image m (some i) none = refl
  preempt-image m (some i) (some x) =
      let b = p.should_preempt m.sched i x m.ran_ticks in
      let (t, y) = enqueue p m.sched i x in
      ap
        (λ c.
          if c
          then (let (u, z) = enqueue q (f m.sched) i x in
              record (image f m) {
                sched = u;
                procs = set m.procs i z;
                running = none;
                ran_ticks = 0;
              })
          else image f m)
        (map.preempts m.sched i x m.ran_ticks)
      ∙ ap
          (λ v.
            if b
            then record (image f m) {
              sched = v.0;
              procs = set m.procs i v.1;
              running = none;
              ran_ticks = 0;
            }
            else image f m)
          (enqueue-via m.sched i x)
      ∙ ap_if (image f) b
          (record m { sched = t; procs = set m.procs i y; running = none; ran_ticks = 0 }) m

  switch-image :
      (cost : ℕ) (m : Simulation S) → switch q cost (image f m) ≡ image f (switch p cost m)
  unfolding switch
  switch-image cost m =
      ap_if (image f) (ltb 0 cost)
        (record m {
          tick = add32 m.tick cost;
          cs_overhead = add32 m.cs_overhead cost;
          total_cs = add32 m.total_cs 1;
        })
        m

  resume-image :
      (m : Simulation S) (i : ℕ) (o : Option Process)
      → resume q (image f m) i o ≡ image f (resume p m i o)
  unfolding resume
  resume-image m i none = refl
  resume-image m i (some x) = refl

  start_next-image :
      (cost : ℕ) (m : Simulation S) (n : Option ℕ × S)
      → start_next q cost (image f m) (n.0, f n.1) ≡ image f (start_next p cost m n)
  unfolding start_next
  start_next-image cost m (none, t) = refl
  start_next-image cost m (some i, t) =
      let n = record m { sched = t } in
      ap (λ x. resume q x i (get_elem? m.procs i)) (switch-image cost n)
      ∙ resume-image (switch p cost n) i (get_elem? m.procs i)

  dispatch-image :
      (cost : ℕ) (m : Simulation S) (r : Option ℕ)
      → dispatch q cost (image f m) r ≡ image f (dispatch p cost m r)
  unfolding dispatch
  dispatch-image cost m none =
      ap (start_next q cost (image f m)) (map.picks m.sched)
      ∙ start_next-image cost m (p.pick_next m.sched)
  dispatch-image cost m (some i) = refl

  next_burst-image :
      (m : Simulation S) (i : ℕ) (x : Process) (o : Option Burst)
      → next_burst q (image f m) i x o ≡ image f (next_burst p m i x o)
  unfolding next_burst
  next_burst-image m i x none = refl
  next_burst-image m i x (some b) =
      let y = record x { burst_remaining = b.ticks } in
      ap_if (image f) (is_io b.kind)
        (record m {
          procs = set m.procs i (record y { state = waiting });
          running = none;
          ran_ticks = 0;
          waiting = m.waiting ++ (i, b.ticks) ∷ [];
        })
        (record m { procs = set m.procs i y })

  after_cpu-image :
      (m : Simulation S) (i : ℕ) (a : Bool × Process)
      → after_cpu q (image f m) i a ≡ image f (after_cpu p m i a)
  unfolding after_cpu
  after_cpu-image m i (true, x) = next_burst-image m i x (current_burst x)
  after_cpu-image m i (false, x) = refl

  burst_over-image :
      (m : Simulation S) (i : ℕ) (x : Process) (o : Option Burst)
      → burst_over q (image f m) i x o ≡ image f (burst_over p m i x o)
  unfolding burst_over
  burst_over-image m i x none = refl
  burst_over-image m i x (some b) =
      let y = record m { procs = set m.procs i x } in
      ap (λ z. if is_cpu b.kind then z else image f y) (after_cpu-image m i (advance_burst x))
      ∙ ap_if (image f) (is_cpu b.kind) (after_cpu p m i (advance_burst x)) y

  run_one-image :
      (m : Simulation S) (r : Option ℕ) (o : Option Process)
      → run_one q (image f m) r o ≡ image f (run_one p m r o)
  unfolding run_one
  run_one-image m none o = refl
  run_one-image m (some i) none = refl
  run_one-image m (some i) (some x) =
      let left = sub32 x.burst_remaining 1 in
      let y = record x { burst_remaining = left } in
      let n = record m { useful_ticks = add32 m.useful_ticks 1; ran_ticks = add32 m.ran_ticks 1 } in
      let z = record n { procs = set n.procs i y } in
      ap (λ v. if left == 0 then v else image f z) (burst_over-image n i y (current_burst y))
      ∙ ap_if (image f) (left == 0) (burst_over p n i y (current_burst y)) z

  running_process-image :
      (m : Simulation S) (r : Option ℕ) → running_process q (image f m) r ≡ running_process p m r
  running_process-image m none = refl
  running_process-image m (some i) = refl

  -- The parts of a round, one after the other.
  round-image : (cost : ℕ) (m : Simulation S) → round q cost (image f m) ≡ image f (round p cost m)
  unfolding round
  round-image cost m =
      let a = collect p m in
      let b = preempt p a a.running (running_process p a a.running) in
      let c = dispatch p cost b b.running in
      let last : Simulation T → Simulation T = λ d. record d { tick = add32 d.tick 1 } in
      let ran : Simulation T → Simulation T =
        λ n. last (run_one q n n.running (running_process q n n.running)) in
      let sent : Simulation T → Simulation T = λ n. ran (dispatch q cost n n.running) in
      ap (λ n. sent (preempt q n n.running (running_process q n n.running))) (collect-image m)
      ∙ ap (λ o. sent (preempt q (image f a) a.running o)) (running_process-image a a.running)
      ∙ ap sent (preempt-image a a.running (running_process p a a.running))
      ∙ ap ran (dispatch-image cost b b.running)
      ∙ ap (λ o. last (run_one q (image f c) c.running o)) (running_process-image c c.running)
      ∙ ap last (run_one-image c c.running (running_process p c c.running))

  rounds-image :
      (left cost : ℕ) (m : Simulation S)
      → run_rounds q left cost (image f m) ≡ image f (run_rounds p left cost m)
  unfolding run_rounds
  rounds-image zero cost m = refl
  rounds-image (suc left) cost m =
      ap (λ r. if over p m then image f m else r)
        (ap (run_rounds q left cost) (round-image cost m) ∙ rounds-image left cost (round p cost m))
      ∙ ap_if (image f) (over p m) m (run_rounds p left cost (round p cost m))

  pub simulate-image :
      (cost : ℕ) (s : S) (procs : List Process)
      → simulate q cost (f s) procs ≡ image f (simulate p cost s procs)
  unfolding simulate start
  simulate-image cost s procs = rounds-image max_ticks cost (start s procs)
