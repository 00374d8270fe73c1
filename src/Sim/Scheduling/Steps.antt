-- ===== src/Sim/Scheduling/Steps.antt =====
-- Preemption, the choice of the next process and a tick of the CPU keep each process in its place.
use memory_allocator.Base.{
  ℕ, ◌+◌, ◌<◌, ◌≡◌, ◌≢◌, refl, sym, ap, subst, ◌∙◌, ltb, ◌==◌, if◌then◌else◌, Bool, true, false,
  Option, none, some, [], ◌∷◌, ◌++◌, get_elem?, set, arith,
}
use memory_allocator.Sched.Process.{
  ready, running, waiting, terminated, Burst, Process, add32, sub32, never, enter_burst,
  advance_burst, current_burst,
}
use memory_allocator.Sim.Scheduling.{
  Policy, Simulation, is_new, is_io, is_cpu, enqueue, preempt, switch, resume, start_next, dispatch,
  next_burst, after_cpu, burst_over, run_one, running_process,
}
use memory_allocator.Sim.Scheduling.Places.{
  one, one_self, one_other, released, waits, waits-snoc, IsKeeper, Agree, InPlace, IsPlaced,
  IsPlaced-eq, set-IsPlaced, held-Agree, runs-Agree,
}
use memory_allocator.Sim.Scheduling.Collect.{not_new-Lost}

state-enter_burst : (p : Process) (o : Option Burst) → (enter_burst p o).1.state ≡ p.state
unfolding enter_burst
state-enter_burst p none = refl
state-enter_burst p (some b) = refl

pub state-advance_burst : (p : Process) → (advance_burst p).1.state ≡ p.state
unfolding advance_burst
state-advance_burst p = state-enter_burst _ _

module _ {S : Type 0} (policy : Policy S) (keeper : IsKeeper policy) (Lost : ℕ → Process → Type 0)
    (since : ℕ)
    (late : (i : ℕ) (p : Process) → Lost i p → (is_new p.state ≡ true) × (p.arrival < since)) where
  abbrev pub Placed : Simulation S → Type 0
  Placed m = IsPlaced Lost (keeper.held m.sched) (released m.running) (waits m.waiting) m.procs

  Placed-if : (b : Bool) (m n : Simulation S) → Placed m → Placed n → Placed (if b then m else n)
  Placed-if true m n x y = x
  Placed-if false m n x y = y

  -- The place of the running process.
  its_place :
      (m : Simulation S) (i : ℕ) (p : Process)
      → m.running ≡ some i
      → get_elem? m.procs i ≡ some p
      → Placed m
      → (p.state ≡ running) × (keeper.held m.sched i ≡ 0) × (waits m.waiting i ≡ 0)
  unfolding IsPlaced
  its_place m i p e f c =
      let runs : released m.running i ≡ 1 = ap (λ o. released o i) e ∙ one_self i in
      let (state, h, r, w) =
        runs-Agree p.state (keeper.held m.sched i) (released m.running i) (waits m.waiting i)
          (omega (arith, runs))
          (subst (InPlace (keeper.held m.sched i) (released m.running i) (waits m.waiting i)) f
            (c i).0) in
      (state, h, w)

  -- The running process changes, and goes to where `h`, `r` and `w` say.
  running-moves :
      (m : Simulation S) (i : ℕ) (p q : Process) (h r w : ℕ → ℕ)
      → m.running ≡ some i
      → get_elem? m.procs i ≡ some p
      → Placed m
      → Agree q.state (h i) (r i) (w i)
      → ((j : ℕ) → j ≢ i → (h j ≡ keeper.held m.sched j) × (r j ≡ 0) × (w j ≡ waits m.waiting j))
      → IsPlaced Lost h r w (set m.procs i q)
  running-moves m i p q h r w e f c a others =
      let (state, x, y) = its_place m i p e f c in
      set-IsPlaced Lost (keeper.held m.sched) (released m.running) (waits m.waiting) h r w m.procs i
        p q c f (λ x lost. not_new-Lost policy keeper Lost since late i p x (ap is_new state) lost)
        a
        (λ j ne.
          let (u, v, z) = others j ne in
          (u, v ∙ sym (ap (λ o. released o j) e ∙ one_other i j ne), z))

  -- It goes on running.
  running-stays :
      (m : Simulation S) (i : ℕ) (p q : Process)
      → m.running ≡ some i
      → get_elem? m.procs i ≡ some p
      → Placed m
      → q.state ≡ running
      → Placed (record m { procs = set m.procs i q })
  running-stays m i p q e f c state =
      let (x, h, w) = its_place m i p e f c in
      running-moves m i p q (keeper.held m.sched) (released m.running) (waits m.waiting) e f c
        (subst (λ s. Agree s (keeper.held m.sched i) (released m.running i) (waits m.waiting i))
          (sym state) (h, ap (λ o. released o i) e ∙ one_self i, w))
        (λ j ne. (refl, ap (λ o. released o j) e ∙ one_other i j ne, refl))

  pub preempt-Placed :
      (m : Simulation S) (r : Option ℕ) (o : Option Process)
      → m.running ≡ r
      → running_process policy m r ≡ o
      → Placed m
      → Placed (preempt policy m r o)
  unfolding preempt enqueue
  preempt-Placed m none o e f c = c
  preempt-Placed m (some i) none e f c = c
  preempt-Placed m (some i) (some p) e f c =
      let q = record p { state = ready } in
      let (state, h, w) = its_place m i p e f c in
      Placed-if (policy.should_preempt m.sched i p m.ran_ticks)
        (record m {
          sched = policy.add m.sched i q;
          procs = set m.procs i q;
          running = none;
          ran_ticks = 0;
        })
        m
        (running-moves m i p q (keeper.held (policy.add m.sched i q)) (λ j. 0) (waits m.waiting) e f
          c (omega (arith, keeper.adds m.sched i q i, one_self i, h), refl, w)
          (λ j ne. (omega (arith, keeper.adds m.sched i q j, one_other i j ne), refl, refl)))
        c

  next_burst-Placed :
      (m : Simulation S) (i : ℕ) (p q : Process) (o : Option Burst)
      → m.running ≡ some i
      → get_elem? m.procs i ≡ some p
      → q.state ≡ running
      → Placed m
      → Placed (next_burst policy m i q o)
  unfolding next_burst
  next_burst-Placed m i p q none e f state c = running-stays m i p q e f c state
  next_burst-Placed m i p q (some b) e f state c =
      let loaded = record q { burst_remaining = b.ticks } in
      let blocked = record loaded { state = waiting } in
      let (x, h, w) = its_place m i p e f c in
      Placed-if (is_io b.kind)
        (record m {
          procs = set m.procs i blocked;
          running = none;
          ran_ticks = 0;
          waiting = m.waiting ++ (i, b.ticks) ∷ [];
        })
        (record m { procs = set m.procs i loaded })
        (running-moves m i p blocked (keeper.held m.sched) (λ j. 0)
          (waits (m.waiting ++ (i, b.ticks) ∷ [])) e f c
          (h, refl, omega (arith, waits-snoc m.waiting i b.ticks i, one_self i, w))
          (λ j ne. (refl, refl, omega (arith, waits-snoc m.waiting i b.ticks j, one_other i j ne))))
        (running-stays m i p loaded e f c state)

  after_cpu-Placed :
      (m : Simulation S) (i : ℕ) (p : Process) (a : Bool × Process)
      → m.running ≡ some i
      → get_elem? m.procs i ≡ some p
      → a.1.state ≡ running
      → Placed m
      → Placed (after_cpu policy m i a)
  unfolding after_cpu
  after_cpu-Placed m i p (true, q) e f state c =
      next_burst-Placed m i p q (current_burst q) e f state c
  after_cpu-Placed m i p (false, q) e f state c =
      let (x, h, w) = its_place m i p e f c in
      running-moves m i p (record q { state = terminated; finish = add32 m.tick 1 })
        (keeper.held m.sched) (λ j. 0) (waits m.waiting) e f c (h, refl, w)
        (λ j ne. (refl, refl, refl))

  burst_over-Placed :
      (m : Simulation S) (i : ℕ) (p q : Process) (o : Option Burst)
      → m.running ≡ some i
      → get_elem? m.procs i ≡ some p
      → q.state ≡ running
      → Placed m
      → Placed (burst_over policy m i q o)
  unfolding burst_over
  burst_over-Placed m i p q none e f state c = running-stays m i p q e f c state
  burst_over-Placed m i p q (some b) e f state c =
      Placed-if (is_cpu b.kind) (after_cpu policy m i (advance_burst q))
        (record m { procs = set m.procs i q })
        (after_cpu-Placed m i p (advance_burst q) e f (state-advance_burst q ∙ state) c)
        (running-stays m i p q e f c state)

  pub run_one-Placed :
      (m : Simulation S) (r : Option ℕ) (o : Option Process)
      → m.running ≡ r
      → running_process policy m r ≡ o
      → Placed m
      → Placed (run_one policy m r o)
  unfolding run_one
  run_one-Placed m none o e f c = c
  run_one-Placed m (some i) none e f c = c
  run_one-Placed m (some i) (some p) e f c =
      let left = sub32 p.burst_remaining 1 in
      let q = record p { burst_remaining = left } in
      let n = record m { useful_ticks = add32 m.useful_ticks 1; ran_ticks = add32 m.ran_ticks 1 } in
      let (state, h, w) = its_place m i p e f c in
      Placed-if (left == 0) (burst_over policy n i q (current_burst q))
        (record n { procs = set n.procs i q })
        (burst_over-Placed n i p q (current_burst q) e f state c)
        (running-stays n i p q e f c state)

  resume-Placed :
      (m : Simulation S) (s : S) (i : ℕ) (o : Option Process)
      → m.running ≡ none
      → get_elem? m.procs i ≡ o
      → ((j : ℕ) → keeper.held s j ≡ keeper.held m.sched j + one i j)
      → IsPlaced Lost (keeper.held s) (λ j. 0) (waits m.waiting) m.procs
      → Placed (resume policy m i o)
  unfolding resume IsPlaced
  resume-Placed m s i none idle e picked c =
      let h = subst (InPlace (keeper.held s i) 0 (waits m.waiting i)) e (c i).0 in
      absurd (omega (arith, h.0, picked i, one_self i))
  resume-Placed m s i (some p) idle e picked c =
      let (not_new, h, r, w) =
        held-Agree p.state (keeper.held s i) 0 (waits m.waiting i)
          (omega (arith, picked i, one_self i))
          (subst (InPlace (keeper.held s i) 0 (waits m.waiting i)) e (c i).0) in
      set-IsPlaced Lost (keeper.held s) (λ j. 0) (waits m.waiting) (keeper.held m.sched) (one i)
        (waits m.waiting) m.procs i p
        (record p {
          first_run = if p.first_run == never then m.tick else p.first_run;
          ctx_switches = add32 p.ctx_switches 1;
          state = running;
        })
        c e (λ x lost. not_new-Lost policy keeper Lost since late i p x not_new lost)
        (omega (arith, h, picked i, one_self i), one_self i, w)
        (λ j ne. (omega (arith, picked j, one_other i j ne), one_other i j ne, refl))

  start_next-Placed :
      (cost : ℕ) (m : Simulation S) (n : Option ℕ × S)
      → m.running ≡ none
      → ((j : ℕ) → keeper.held m.sched j ≡ keeper.held n.1 j + released n.0 j)
      → Placed m
      → Placed (start_next policy cost m n)
  unfolding start_next switch
  start_next-Placed cost m (none, t) idle picked c =
      IsPlaced-eq Lost (keeper.held m.sched) (released m.running) (waits m.waiting) (keeper.held t)
        (released m.running) (waits m.waiting) m.procs (λ j. (omega (arith, picked j), refl, refl))
        c
  start_next-Placed cost m (some i, t) idle picked c =
      let n = record m { sched = t } in
      let paid = record n {
        tick = add32 m.tick cost;
        cs_overhead = add32 m.cs_overhead cost;
        total_cs = add32 m.total_cs 1;
      } in
      let o = get_elem? m.procs i in
      let before =
        subst (λ r. IsPlaced Lost (keeper.held m.sched) (released r) (waits m.waiting) m.procs) idle
          c in
      switched (ltb 0 cost) paid n o (resume-Placed paid m.sched i o idle refl picked before)
        (resume-Placed n m.sched i o idle refl picked before)
    where
      switched :
          (b : Bool) (x y : Simulation S) (o : Option Process)
          → Placed (resume policy x i o)
          → Placed (resume policy y i o)
          → Placed (resume policy (if b then x else y) i o)
      switched true x y o p q = p
      switched false x y o p q = q

  pub dispatch-Placed :
      (cost : ℕ) (m : Simulation S) (r : Option ℕ)
      → m.running ≡ r
      → Placed m
      → Placed (dispatch policy cost m r)
  unfolding dispatch
  dispatch-Placed cost m none e c =
      start_next-Placed cost m (policy.pick_next m.sched) e (keeper.picks m.sched) c
  dispatch-Placed cost m (some i) e c = c
