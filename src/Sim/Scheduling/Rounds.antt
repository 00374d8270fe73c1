-- ===== src/Sim/Scheduling/Rounds.antt =====
-- What the rounds of the simulation keep.
use memory_allocator.Base.{
  ℕ, zero, suc, ◌+◌, ◌^◌, ◌≤◌, ◌<◌, ◌≡◌, refl, true, Bool-cases, inl, inr, List, [], ◌∷◌, get_elem?,
  arith,
}
use memory_allocator.Sched.Process.{Process}
use memory_allocator.Sim.Scheduling.{
  Policy, Simulation, max_ticks, reset, reset_all, start, is_new, arrivals, completions, collect,
  preempt, dispatch, running_process, round, over, run_rounds,
}
use memory_allocator.Sim.Scheduling.Totals.{IsWithin, totals, over-early, round-IsWithin}
use memory_allocator.Sim.Scheduling.Places.{
  released, waits, IsKeeper, InPlace, IsPlaced, IsPlaced-eq,
}
use memory_allocator.Sim.Scheduling.Collect.{arrivals-IsPlaced, completions-IsPlaced}
use memory_allocator.Sim.Scheduling.Steps.{Placed, preempt-Placed, dispatch-Placed, run_one-Placed}

module _ {S : Type 0} (policy : Policy S) (keeper : IsKeeper policy) (Lost : ℕ → Process → Type 0)
    (since : ℕ)
    (late : (i : ℕ) (p : Process) → Lost i p → (is_new p.state ≡ true) × (p.arrival < since)) where
  collect-Placed :
      (m : Simulation S)
      → since ≤ m.tick
      → Placed policy keeper Lost since late m
      → Placed policy keeper Lost since late (collect policy m)
  unfolding collect
  collect-Placed m l c =
      let (s, ps) = arrivals policy m.tick m.sched 0 m.procs in
      let (w, t, qs) = completions policy m.tick s ps m.waiting in
      let arrived =
        arrivals-IsPlaced policy keeper Lost since late m.tick m.procs m.sched (released m.running)
          (waits m.waiting) l c in
      IsPlaced-eq Lost (keeper.held t) (released m.running) (λ j. 0 + waits w j) (keeper.held t)
        (released m.running) (waits w) qs (λ j. (refl, refl, omega arith))
        (completions-IsPlaced policy keeper Lost since late m.tick m.waiting s ps
          (released m.running) (λ j. 0)
          (IsPlaced-eq Lost (keeper.held s) (released m.running) (waits m.waiting) (keeper.held s)
            (released m.running) (λ j. 0 + waits m.waiting j) ps (λ j. (refl, refl, omega arith))
            arrived))

  round-Placed :
      (cost : ℕ) (m : Simulation S)
      → since ≤ m.tick
      → Placed policy keeper Lost since late m
      → Placed policy keeper Lost since late (round policy cost m)
  unfolding round
  round-Placed cost m l c =
      let a = collect policy m in
      let b = preempt policy a a.running (running_process policy a a.running) in
      let d = dispatch policy cost b b.running in
      run_one-Placed policy keeper Lost since late d d.running (running_process policy d d.running)
        refl refl
        (dispatch-Placed policy keeper Lost since late cost b b.running refl (
          preempt-Placed policy keeper Lost since late a a.running
            (running_process policy a a.running) refl refl (collect-Placed m l c)))

  pub rounds-Placed :
      (cost left : ℕ) (m : Simulation S)
      → cost + max_ticks < 2 ^ 32
      → since ≤ m.tick
      → IsWithin cost (totals m)
      → Placed policy keeper Lost since late m
      → Placed policy keeper Lost since late (run_rounds policy left cost m)
        × IsWithin cost (totals (run_rounds policy left cost m))
  unfolding run_rounds
  rounds-Placed cost zero m bound l within c = (c, within)
  rounds-Placed cost (suc left) m bound l within c = elim (Bool-cases (over policy m)) [
    | inl ended ↦ rw ended (c, within)
    | inr goes_on ↦
        let (w, later, cap) =
          round-IsWithin policy cost m bound (over-early policy m goes_on) within in
        rw goes_on (
          rounds-Placed cost left (round policy cost m) bound (omega (arith, l, later)) w
            (round-Placed cost m l c))
  ]

-- No process is lost.
abbrev None : ℕ → Process → Type 0
None i p = ⊥

none-late : (i : ℕ) (p : Process) → None i p → (is_new p.state ≡ true) × (p.arrival < 0)
none-late i p l = absurd l

reset-InPlace :
    (procs : List Process) (j h : ℕ) → h ≡ 0 → InPlace h 0 0 (get_elem? (reset_all procs) j)
unfolding reset_all reset
reset-InPlace [] j h e = (e, refl, refl)
reset-InPlace (p ∷ procs) zero h e = (e, refl, refl)
reset-InPlace (p ∷ procs) (suc j) h e = reset-InPlace procs j h e

module _ {S : Type 0} (policy : Policy S) (keeper : IsKeeper policy) where
  reached-Placed :
      (cost rounds : ℕ) (s : S) (procs : List Process)
      → cost + max_ticks < 2 ^ 32
      → ((j : ℕ) → keeper.held s j ≡ 0)
      → Placed policy keeper None 0 none-late (run_rounds policy rounds cost (start s procs))
        × IsWithin cost (totals (run_rounds policy rounds cost (start s procs)))
  unfolding start IsPlaced
  reached-Placed cost rounds s procs bound nothing =
      rounds-Placed policy keeper None 0 none-late cost rounds (start s procs) bound (omega arith)
        (omega arith, omega arith, omega arith)
        (λ j. (reset-InPlace procs j (keeper.held s j) (nothing j), λ x l. absurd l))

  -- For a policy that hands out what it was given, holds nothing at first, and a cost that leaves
  -- the ticks in 32 bits: after any number of rounds each process is held by the policy once if it
  -- is ready, is on the CPU if it runs, waits for I/O once if it waits, and is in none of these
  -- places if it is new or has ended; an index out of range is in none either.
  pub rounds-InPlace :
      (cost rounds : ℕ) (s : S) (procs : List Process)
      → cost + max_ticks < 2 ^ 32
      → ((j : ℕ) → keeper.held s j ≡ 0)
      → let m = run_rounds policy rounds cost (start s procs) in
        (j : ℕ)
        → InPlace
            (keeper.held m.sched j)
            (released m.running j)
            (waits m.waiting j)
            (get_elem? m.procs j)
  unfolding IsPlaced
  rounds-InPlace cost rounds s procs bound nothing j =
      ((reached-Placed cost rounds s procs bound nothing).0 j).0
