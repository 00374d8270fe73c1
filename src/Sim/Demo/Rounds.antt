-- ===== src/Sim/Demo/Rounds.antt =====
-- The loop of the demos ends, with each process in its place and the resource kept.
use memory_allocator.Base.{
  ℕ, zero, suc, ◌+◌, ◌≤◌, ◌<◌, ◌≡◌, refl, sym, ap, subst, ◌∙◌, ltb, ltb→lt, if◌then◌else◌, not,
  ◌&&◌, Bool, true, false, Bool-cases, inl, inr, List, [], ◌∷◌, All, get_elem?, length, arith,
}
use memory_allocator.Base.Count.{count}
use memory_allocator.Sched.Process.{new, Process, add32}
use memory_allocator.Sched.RoundRobin
use memory_allocator.Sim.Scheduling.{all_done}
use memory_allocator.Sim.Scheduling.Places.{waits}
use memory_allocator.Sim.Demo.{
  Resource, Demo, max_ticks, start, arrivals, completions, retries, preempt, schedule, run_one,
  running_process, round, over, run_rounds, run,
}
use memory_allocator.Sim.Demo.Places.{
  phases, IsKept, Agree, Fits, IsPlaced, IsPlaced-eq, held, IsValid,
}
use memory_allocator.Sim.Demo.Moves.{preempt-IsValid, schedule-IsValid}
use memory_allocator.Sim.Demo.Loops.{arrivals-IsValid, completions-IsValid, retries-IsValid}
use memory_allocator.Sim.Demo.Ticks.{run_one-Between}

module _ {R : Type 0} {resource : Resource R} (kept : IsKept resource) where
  -- Between rounds, at a tick.
  abbrev pub IsSound : ℕ → Demo R → Type 0
  IsSound tick m = IsValid kept tick (λ j. 0) (λ j. 0) (λ j. tick) m

  rearranged :
      (tick : ℕ) (m n : Demo R) (io io' mem mem' lim lim' : ℕ → ℕ)
      → IsValid kept tick io mem lim m
      → n.tick ≡ m.tick
      → n.procs ≡ m.procs
      → n.resource ≡ m.resource
      → ((j : ℕ)
          → (held n j + io' j ≡ held m j + io j)
            × (count j n.mem_wait + mem' j ≡ count j m.mem_wait + mem j)
            × (lim j ≤ lim' j))
      → IsValid kept tick io' mem' lim' n
  rearranged tick m n io io' mem mem' lim lim' v t p r e = record {
    tick_is = t ∙ v.tick_is;
    placed =
        subst (IsPlaced (λ j. held n j + io' j) (λ j. count j n.mem_wait + mem' j) lim') (sym p) (
          IsPlaced-eq (λ j. held m j + io j) (λ j. count j m.mem_wait + mem j) lim
            (λ j. held n j + io' j) (λ j. count j n.mem_wait + mem' j) lim' m.procs v.placed e);
    holds =
        subst (λ x. kept.Holds x (phases n.procs)) (sym r)
          (subst (λ x. kept.Holds m.resource (phases x)) (sym p) v.holds);
  }

  round-IsSound :
      (tick : ℕ) (m : Demo R)
      → tick < max_ticks
      → IsSound tick m
      → IsSound (suc tick) (round resource m)
  unfolding round
  round-IsSound tick m early v =
      let a = arrivals resource (length m.procs) 0 m in
      let a0 = record a { io_wait = [] } in
      let b = completions resource a.io_wait a0 in
      let b0 = record b { mem_wait = [] } in
      let c = retries resource b.mem_wait b0 in
      let d = preempt resource c c.running (running_process resource c c.running) in
      let e = schedule resource d d.running in
      let arrived = arrivals-IsValid kept tick (length m.procs) 0 m (
        rearranged tick m m (λ j. 0) (λ j. 0) (λ j. 0) (λ j. 0) (λ j. tick)
          (λ j. if ltb j 0 then suc tick else tick) v refl refl refl
          (λ j. (refl, refl, ground arith))) in
      let completed =
        completions-IsValid kept tick (λ j. 0) (λ j. suc tick) a.io_wait a0
          (rearranged tick a a0 (λ j. 0) (waits a.io_wait) (λ j. 0) (λ j. 0)
            (λ j. if ltb j (0 + length m.procs) then suc tick else tick) (λ j. suc tick) arrived
            refl refl refl (λ j. (omega arith, refl, ground arith))) in
      let retried = retries-IsValid kept tick b.mem_wait b0 (
        rearranged tick b b0 (λ j. 0) (λ j. 0) (λ j. 0) (λ j. count j b.mem_wait) (λ j. suc tick)
          (λ j. suc tick) completed refl refl refl (λ j. (refl, omega arith, omega arith))) in
      let ran =
        run_one-Between kept tick e e.running (running_process resource e e.running) refl refl (
          schedule-IsValid kept tick d (λ j. 0) (λ j. suc tick) d.running refl
            (preempt-IsValid kept tick c (λ j. 0) (λ j. suc tick) c.running
              (running_process resource c c.running) refl refl retried)) in
      let next : add32 (run_one resource e e.running (running_process resource e e.running)).tick 1
          ≡ suc tick =
        ap (λ t. add32 t 1) ran.tick_is ∙ omega (arith, early) in
      record { tick_is = next; placed = ran.placed; holds = ran.holds }

  over-early : (m : Demo R) → over resource m ≡ false → m.tick < max_ticks
  over-early m e = elim (Bool-cases (ltb m.tick max_ticks)) [
    | inl early ↦ ltb→lt m.tick max_ticks early
    | inr late ↦ ground (arith, e, late)
  ]

  not_and_false : (b : Bool) → not (b && false) ≡ true
  not_and_false b = ground arith

  rounds-IsSound :
      (left tick : ℕ) (m : Demo R)
      → max_ticks ≤ tick + left
      → IsSound tick m
      → (over resource (run_rounds resource left m) ≡ true)
        × ((t : ℕ) × IsSound t (run_rounds resource left m))
  unfolding run_rounds
  rounds-IsSound zero tick m enough v =
      let now = v.tick_is in
      let late : ltb m.tick max_ticks ≡ false = ground (arith, enough, now) in
      (
        ap (λ b. not (not (all_done m.procs) && b)) late ∙ not_and_false (not (all_done m.procs)),
        (tick, v),
      )
  rounds-IsSound (suc left) tick m enough v = elim (Bool-cases (over resource m)) [
    | inl done ↦ rw done (done, (tick, v))
    | inr goes_on ↦
        let now = v.tick_is in
        let early = over-early m goes_on in
        rw goes_on (
          rounds-IsSound left (suc tick) (round resource m) (omega (arith, enough))
            (round-IsSound tick m (omega (arith, early, now)) v))
  ]

  -- Processes that are new, and a resource that holds nothing.
  start-IsSound :
      (r : R) (procs : List Process)
      → All (λ p. p.state ≡ new) procs
      → kept.Holds r (phases procs)
      → IsSound 0 (start r procs)
  unfolding start RoundRobin.construct IsPlaced
  start-IsSound r procs h holds = record {
    tick_is = refl;
    placed = λ j. first procs j h;
    holds = holds;
  }
    where
      first :
          (procs : List Process) (j : ℕ)
          → All (λ p. p.state ≡ new) procs
          → Fits (0 + 0 + 0 + 0) (0 + 0) 0 (get_elem? procs j)
      first [] j h = (refl, refl)
      first (p ∷ procs) zero (e, h) =
          (subst (λ s. Agree s 0 0) (sym e) (refl, omega arith), λ l. absurd (omega (arith, l)))
      first (p ∷ procs) (suc j) (e, h) = first procs j h

  pub run-IsSound :
      (r : R) (procs : List Process)
      → All (λ p. p.state ≡ new) procs
      → kept.Holds r (phases procs)
      → (over resource (run resource r procs) ≡ true) × ((t : ℕ) × IsSound t (run resource r procs))
  unfolding run
  run-IsSound r procs h holds =
      rounds-IsSound max_ticks 0 (start r procs) (omega arith) (start-IsSound r procs h holds)
