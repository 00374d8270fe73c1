-- ===== src/Sim/Demo/Ticks.antt =====
-- A tick of the running process of the demos.
use memory_allocator.Base.{
  ℕ, suc, ◌+◌, ◌<◌, ◌≡◌, refl, sym, ap, subst, ◌∙◌, ◌==◌, Bool, true, false, Option, none, some, [],
  ◌∷◌, ◌++◌, get_elem?, set, arith,
}
use memory_allocator.Sched.Process.{
  waiting, Burst, Process, add32, sub32, advance_burst, current_burst,
}
use memory_allocator.Sim.Scheduling.{is_io}
use memory_allocator.Sim.Scheduling.Places.{one, one_self, released, waits-snoc}
use memory_allocator.Sim.Demo.{Resource, Demo, next_burst, after_cpu, run_one, running_process}
use memory_allocator.Sim.Demo.Places.{
  phase_of_state, phase_of, phases, IsKept, Agree, held, IsValid,
}
use memory_allocator.Sim.Scheduling.Steps.{state-advance_burst}
use memory_allocator.Sim.Demo.Moves.{
  its_place, same_phases, changed-IsValid, finish-IsValid, IsValid-if,
}

module _ {R : Type 0} {resource : Resource R} (kept : IsKept resource) (tick : ℕ) where
  abbrev pub Between : Demo R → Type 0
  Between m = IsValid kept tick (λ j. 0) (λ j. 0) (λ j. suc tick) m

  runs : (m : Demo R) (i : ℕ) → m.running ≡ some i → (j : ℕ) → released m.running j ≡ one i j
  runs m i e j = ap (λ x. released x j) e

  held_running : (m : Demo R) (i : ℕ) → m.running ≡ some i → 0 < held m i + 0
  held_running m i e = omega (arith, runs m i e i, one_self i)

  -- It goes on running.
  stays-Between :
      (m : Demo R) (i : ℕ) (p q : Process)
      → m.running ≡ some i
      → get_elem? m.procs i ≡ some p
      → q.state ≡ p.state
      → Between m
      → Between (record m { procs = set m.procs i q })
  stays-Between m i p q e f state v =
      let l = held_running m i e in
      let (phase, once, none_waits, agree) =
        its_place kept tick m (λ j. 0) (λ j. 0) (λ j. suc tick) i p f l v in
      changed-IsValid kept tick m (record m { procs = set m.procs i q }) (λ j. 0) (λ j. 0) (λ j. 0)
        (λ j. suc tick) i p q v f l refl refl refl (λ j ne. refl)
        (subst (λ s. Agree s (held m i + 0) 0) (sym state)
          (subst (Agree p.state (held m i + 0)) none_waits agree))
        (same_phases kept tick m m.resource i p q f (ap phase_of_state state) v.holds)

  next_burst-Between :
      (m : Demo R) (i : ℕ) (p q : Process) (o : Option Burst)
      → m.running ≡ some i
      → get_elem? m.procs i ≡ some p
      → q.state ≡ p.state
      → Between m
      → Between (next_burst resource m i q o)
  unfolding next_burst
  next_burst-Between m i p q none e f state v = stays-Between m i p q e f state v
  next_burst-Between m i p q (some b) e f state v =
      let loaded = record q { burst_remaining = b.ticks } in
      let blocked = record loaded { state = waiting } in
      let l = held_running m i e in
      let (phase, once, none_waits, agree) =
        its_place kept tick m (λ j. 0) (λ j. 0) (λ j. suc tick) i p f l v in
      let n = record m {
        procs = set m.procs i blocked;
        running = none;
        ran = 0;
        io_wait = m.io_wait ++ (i, b.ticks) ∷ [];
      } in
      IsValid-if kept tick (λ j. 0) (λ j. 0) (λ j. suc tick) (is_io b.kind) n
        (record m { procs = set m.procs i loaded })
        (changed-IsValid kept tick m n (λ j. 0) (λ j. 0) (λ j. 0) (λ j. suc tick) i p blocked v f l
          refl refl refl (λ j ne. omega (arith, waits-snoc m.io_wait i b.ticks j, runs m i e j))
          (omega (arith, waits-snoc m.io_wait i b.ticks i, runs m i e i, once), refl)
          (same_phases kept tick m m.resource i p blocked f (sym phase) v.holds))
        (stays-Between m i p loaded e f state v)

  after_cpu-Between :
      (m : Demo R) (i : ℕ) (p : Process) (a : Bool × Process)
      → m.running ≡ some i
      → get_elem? m.procs i ≡ some p
      → a.1.state ≡ p.state
      → Between m
      → Between (after_cpu resource m i a)
  unfolding after_cpu
  after_cpu-Between m i p (true, q) e f state v =
      next_burst-Between m i p q (current_burst q) e f state v
  after_cpu-Between m i p (false, q) e f state v =
      finish-IsValid kept tick m none 0 (λ j. 0) (λ j. 0) (λ j. 0) (λ j. suc tick) i p q v f
        (held_running m i e) (λ j. omega (arith, runs m i e j))

  pub run_one-Between :
      (m : Demo R) (r : Option ℕ) (o : Option Process)
      → m.running ≡ r
      → running_process resource m r ≡ o
      → Between m
      → Between (run_one resource m r o)
  unfolding run_one
  run_one-Between m none o e f v = v
  run_one-Between m (some i) none e f v = v
  run_one-Between m (some i) (some p) e f v =
      let left = sub32 p.burst_remaining 1 in
      let q = record p { burst_remaining = left } in
      let n = record m { resource = resource.access m.resource m.tick i; ran = add32 m.ran 1 } in
      let (phase, once, none_waits, agree) =
        its_place kept tick m (λ j. 0) (λ j. 0) (λ j. suc tick) i p f (held_running m i e) v in
      let accessed : Between n = record {
        tick_is = v.tick_is;
        placed = v.placed;
        holds = kept.accesses m.resource (phases m.procs) m.tick i v.holds (ap phase_of f ∙ phase);
      } in
      IsValid-if kept tick (λ j. 0) (λ j. 0) (λ j. suc tick) (left == 0)
        (after_cpu resource n i (advance_burst q)) (record n { procs = set n.procs i q })
        (after_cpu-Between n i p (advance_burst q) e f (state-advance_burst q) accessed)
        (stays-Between n i p q e f refl accessed)
