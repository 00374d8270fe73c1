-- ===== src/Sim/Scheduling/Totals.antt =====
-- The totals of the simulation and its end.
use memory_allocator.Base.{
  ℕ, zero, suc, ◌+◌, ◌*◌, ◌^◌, ◌≤◌, ◌<◌, ◌≡◌, refl, sym, ap, subst, ◌∙◌, ltb, ltb→lt, ◌==◌,
  if◌then◌else◌, not, ◌&&◌, Bool, true, false, Bool-cases, ◌⊎◌, inl, inr, Option, none, some, List,
  get_elem?, arith,
}
use memory_allocator.Sched.Process.{Process, Burst, add32, sub32, advance_burst, current_burst}
use memory_allocator.Sim.Scheduling.{
  Policy, Simulation, max_ticks, start, all_done, collect, preempt, switch, resume, start_next,
  dispatch, is_io, next_burst, after_cpu, is_cpu, burst_over, run_one, running_process, round, over,
  run_rounds, simulate,
}

-- The tick, the useful ticks, the overhead and the context switches.
abbrev pub totals : {S : Type 0} → Simulation S → ℕ × ℕ × ℕ × ℕ
totals m = (m.tick, m.useful_ticks, m.cs_overhead, m.total_cs)

-- The useful ticks and the overhead fit in the ticks, and each context switch counts with its cost.
abbrev pub IsWithin : ℕ → ℕ × ℕ × ℕ × ℕ → Type 0
IsWithin cost (t, u, o, c) = (u + o ≤ t) × (c * cost ≡ o) × (c ≤ t)

abbrev switched : ℕ → ℕ × ℕ × ℕ × ℕ → ℕ × ℕ × ℕ × ℕ
switched cost (t, u, o, c) = (add32 t cost, u, add32 o cost, add32 c 1)

abbrev worked : ℕ × ℕ × ℕ × ℕ → ℕ × ℕ × ℕ × ℕ
worked (t, u, o, c) = (t, add32 u 1, o, c)

not_and_false : (b : Bool) → not (b && false) ≡ true
not_and_false b = ground arith

totals-if :
    {S : Type 0} {t : ℕ × ℕ × ℕ × ℕ} (b : Bool) (m n : Simulation S)
    → totals m ≡ t
    → totals n ≡ t
    → totals (if b then m else n) ≡ t
totals-if true m n e f = e
totals-if false m n e f = f

-- What holds of the totals of a round but for the last tick.
abbrev IsRound : ℕ → ℕ → ℕ × ℕ × ℕ × ℕ → Type 0
IsRound cost t (t', u, o, c) =
    IsWithin cost (add32 t' 1, u, o, c) × (t < add32 t' 1) × (add32 t' 1 ≤ max_ticks + cost)

-- What holds between the context switch and the end of a round that began at tick `t`.
abbrev IsUnderway : ℕ → ℕ → ℕ × ℕ × ℕ × ℕ → Type 0
IsUnderway cost t x = IsWithin cost x × (t ≤ x.0) × (x.0 < max_ticks + cost)

switched-IsUnderway :
    (cost t u o c : ℕ)
    → 0 < cost
    → cost + max_ticks < 2 ^ 32
    → t < max_ticks
    → IsWithin cost (t, u, o, c)
    → IsUnderway cost t (switched cost (t, u, o, c))
switched-IsUnderway cost t u o c pays bound early (fits, each, some_ticks) =
    let overhead : add32 o cost ≡ o + cost = omega (arith, bound, early, fits) in
    let switches : add32 c 1 ≡ suc c = omega (arith, early, some_ticks) in
    (
      (
        omega (arith, bound, early, fits),
        rw (overhead, switches) (omega (arith, each)),
        omega (arith, bound, early, some_ticks, pays),
      ),
      omega (arith, bound, early),
      omega (arith, bound, early),
    )

-- The end of a round: a tick, that was useful or not.
ticked-IsWithin :
    (cost t t' u o c : ℕ)
    → cost + max_ticks < 2 ^ 32
    → IsUnderway cost t (t', u, o, c)
    → (IsWithin cost (add32 t' 1, u, o, c) × IsWithin cost (add32 t' 1, add32 u 1, o, c))
      × (t < add32 t' 1)
      × (add32 t' 1 ≤ max_ticks + cost)
ticked-IsWithin cost t t' u o c bound ((fits, each, some_ticks), later, cap) = (
  (
    (omega (arith, bound, cap, fits), each, omega (arith, bound, cap, some_ticks)),
    (omega (arith, bound, cap, fits), each, omega (arith, bound, cap, some_ticks)),
  ),
  omega (arith, bound, cap, later),
  omega (arith, bound, cap),
)

module _ {S : Type 0} (policy : Policy S) where
  totals-preempt :
      (m : Simulation S) (r : Option ℕ) (o : Option Process)
      → totals (preempt policy m r o) ≡ totals m
  unfolding preempt
  totals-preempt m none o = refl
  totals-preempt m (some i) none = refl
  totals-preempt m (some i) (some p) =
      totals-if (policy.should_preempt m.sched i p m.ran_ticks) _ _ refl refl

  totals-resume :
      (m : Simulation S) (i : ℕ) (o : Option Process) → totals (resume policy m i o) ≡ totals m
  unfolding resume
  totals-resume m i none = refl
  totals-resume m i (some p) = refl

  totals-switch :
      (cost : ℕ) (m : Simulation S)
      → (totals (switch policy cost m) ≡ totals m)
        ⊎ ((totals (switch policy cost m) ≡ switched cost (totals m)) × (0 < cost))
  unfolding switch
  totals-switch cost m = elim (Bool-cases (ltb 0 cost)) [
    | inl pays ↦ inr (rw pays refl, ltb→lt 0 cost pays)
    | inr not_pays ↦ inl (rw not_pays refl)
  ]

  totals-start_next :
      (cost : ℕ) (m : Simulation S) (n : Option ℕ × S)
      → (totals (start_next policy cost m n) ≡ totals m)
        ⊎ ((totals (start_next policy cost m n) ≡ switched cost (totals m)) × (0 < cost))
  unfolding start_next
  totals-start_next cost m (none, t) = inl refl
  totals-start_next cost m (some i, t) =
      let n = record m { sched = t } in
      let e = totals-resume (switch policy cost n) i (get_elem? m.procs i) in
      elim (totals-switch cost n) [
        | inl same_totals ↦ inl (e ∙ same_totals)
        | inr (paid, c) ↦ inr (e ∙ paid, c)
      ]

  totals-dispatch :
      (cost : ℕ) (m : Simulation S) (r : Option ℕ)
      → (totals (dispatch policy cost m r) ≡ totals m)
        ⊎ ((totals (dispatch policy cost m r) ≡ switched cost (totals m)) × (0 < cost))
  unfolding dispatch
  totals-dispatch cost m none = totals-start_next cost m (policy.pick_next m.sched)
  totals-dispatch cost m (some i) = inl refl

  totals-next_burst :
      (m : Simulation S) (i : ℕ) (p : Process) (o : Option Burst)
      → totals (next_burst policy m i p o) ≡ totals m
  unfolding next_burst
  totals-next_burst m i p none = refl
  totals-next_burst m i p (some b) = totals-if (is_io b.kind) _ _ refl refl

  totals-after_cpu :
      (m : Simulation S) (i : ℕ) (a : Bool × Process) → totals (after_cpu policy m i a) ≡ totals m
  unfolding after_cpu
  totals-after_cpu m i (true, p) = totals-next_burst m i p (current_burst p)
  totals-after_cpu m i (false, p) = refl

  totals-burst_over :
      (m : Simulation S) (i : ℕ) (p : Process) (o : Option Burst)
      → totals (burst_over policy m i p o) ≡ totals m
  unfolding burst_over
  totals-burst_over m i p none = refl
  totals-burst_over m i p (some b) =
      totals-if (is_cpu b.kind) _ _ (totals-after_cpu m i (advance_burst p)) refl

  totals-run_one :
      (m : Simulation S) (r : Option ℕ) (o : Option Process)
      → (totals (run_one policy m r o) ≡ totals m)
        ⊎ (totals (run_one policy m r o) ≡ worked (totals m))
  unfolding run_one
  totals-run_one m none o = inl refl
  totals-run_one m (some i) none = inl refl
  totals-run_one m (some i) (some p) =
      let left = sub32 p.burst_remaining 1 in
      let q = record p { burst_remaining = left } in
      let n = record m { useful_ticks = add32 m.useful_ticks 1; ran_ticks = add32 m.ran_ticks 1 } in
      inr (totals-if (left == 0) _ _ (totals-burst_over n i q (current_burst q)) refl)

  dispatch-IsUnderway :
      (cost : ℕ) (m : Simulation S) (r : Option ℕ)
      → cost + max_ticks < 2 ^ 32
      → m.tick < max_ticks
      → IsWithin cost (totals m)
      → IsUnderway cost m.tick (totals (dispatch policy cost m r))
  dispatch-IsUnderway cost m r bound early within = elim (totals-dispatch cost m r) [
    | inl same_totals ↦
        subst (IsUnderway cost m.tick) (sym same_totals) (within, omega arith, omega (arith, early))
    | inr (paid, pays) ↦ subst (IsUnderway cost m.tick) (sym paid) (
        switched-IsUnderway cost m.tick m.useful_ticks m.cs_overhead m.total_cs pays bound early
          within)
  ]

  -- One round from a tick before the cap.
  pub round-IsWithin :
      (cost : ℕ) (m : Simulation S)
      → cost + max_ticks < 2 ^ 32
      → m.tick < max_ticks
      → IsWithin cost (totals m)
      → IsWithin cost (totals (round policy cost m))
        × (m.tick < (round policy cost m).tick)
        × ((round policy cost m).tick ≤ max_ticks + cost)
  unfolding round collect
  round-IsWithin cost m bound early within =
      let a = collect policy m in
      let b = preempt policy a a.running (running_process policy a a.running) in
      let c = dispatch policy cost b b.running in
      let before = totals-preempt a a.running (running_process policy a a.running) in
      let underway =
        subst (λ x. IsUnderway cost x.0 (totals c)) before
          (dispatch-IsUnderway cost b b.running bound
            (subst (λ x. x.0 < max_ticks) (sym before) early)
            (subst (IsWithin cost) (sym before) within)) in
      let (done, later, cap) =
        ticked-IsWithin cost m.tick c.tick c.useful_ticks c.cs_overhead c.total_cs bound underway in
      elim (totals-run_one c c.running (running_process policy c c.running)) [
        | inl same_totals ↦ subst (IsRound cost m.tick) (sym same_totals) (done.0, later, cap)
        | inr used ↦ subst (IsRound cost m.tick) (sym used) (done.1, later, cap)
      ]

  pub over-early : (m : Simulation S) → over policy m ≡ false → m.tick < max_ticks
  over-early m e = elim (Bool-cases (ltb m.tick max_ticks)) [
    | inl early ↦ ltb→lt m.tick max_ticks early
    | inr late ↦ ground (arith, e, late)
  ]

  -- The cap on the ticks ends the loop, which makes at most so many rounds.
  rounds-end :
      (cost left : ℕ) (m : Simulation S)
      → cost + max_ticks < 2 ^ 32
      → max_ticks ≤ m.tick + left
      → m.tick ≤ max_ticks + cost
      → IsWithin cost (totals m)
      → (over policy (run_rounds policy left cost m) ≡ true)
        × IsWithin cost (totals (run_rounds policy left cost m))
        × ((run_rounds policy left cost m).tick ≤ max_ticks + cost)
  unfolding run_rounds
  rounds-end cost zero m bound enough cap within =
      let late : ltb m.tick max_ticks ≡ false = ground (arith, enough) in
      (
        ap (λ b. not (not (all_done m.procs) && b)) late ∙ not_and_false (not (all_done m.procs)),
        within,
        cap,
      )
  rounds-end cost (suc left) m bound enough cap within = elim (Bool-cases (over policy m)) [
    | inl ended ↦ rw ended (ended, within, cap)
    | inr goes_on ↦
        let early = over-early m goes_on in
        let (w, later, c) = round-IsWithin cost m bound early within in
        rw goes_on
          (rounds-end cost left (round policy cost m) bound (omega (arith, enough, later)) c w)
  ]

  -- For a cost of a context switch that leaves the ticks in 32 bits, whatever the policy answers:
  -- the simulation ends because all processes have or the cap is reached; the useful ticks and the
  -- overhead fit in the ticks, so that the utilisation is at most 1; and the overhead is the cost
  -- of all context switches.
  pub simulate_ends :
      (cost : ℕ) (s : S) (procs : List Process)
      → cost + max_ticks < 2 ^ 32
      → let m = simulate policy cost s procs in
        (over policy m ≡ true)
        × (m.useful_ticks + m.cs_overhead ≤ m.tick)
        × (m.total_cs * cost ≡ m.cs_overhead)
        × (m.tick ≤ max_ticks + cost)
  unfolding simulate start
  simulate_ends cost s procs bound =
      let (ended, (fits, each, some_ticks), cap) =
        rounds-end cost max_ticks (start s procs) bound (omega arith) (omega arith)
          (omega arith, omega arith, omega arith) in
      (ended, fits, each, cap)
