-- ===== src/Os/Scheduler/Runs.antt =====
-- Every tick and every run of the scheduler, over any allocator.
use memory_allocator.Base.{
  ℕ, zero, suc, ◌+◌, ◌<◌, ◌≡◌, refl, sym, ap, subst, ◌∙◌, Bool-cases, inl, inr, Option, none, some,
  Option-cases, List, [], ◌∷◌, ◌++◌, append_assoc, append-nil, All, length, get_elem?, arith,
}
use memory_allocator.Base.Count.{count}
use memory_allocator.Os.Process.{new, Process}
use memory_allocator.Os.Scheduler.{
  Memory, Scheduler, construct, add_process, add_processes, service_io, admit_pending, run_slice,
  run_tick, run, unless_over, all_terminated,
}
use memory_allocator.Os.Scheduler.Queues.{
  Agree, EndsOnCpu, HasBurst, Fits, IsConsistent, IsConsistent-eq, count_self, Served,
  service-IsConsistent,
}
use memory_allocator.Os.Scheduler.Admission.{admit-IsConsistent}
use memory_allocator.Os.Scheduler.Slices.{IsValid, run_process-IsValid}

-- A process as it is added: new, with a burst to begin with, and a last burst without I/O.
abbrev pub IsFresh : Process → Type 0
IsFresh p = (p.state ≡ new) × EndsOnCpu p.bursts × (p.current_burst < length p.bursts)

pub add_processes-all :
    {A : Type 0} (s : Scheduler A) (ps : List Process)
    → add_processes s ps ≡ record s { all_processes = s.all_processes ++ ps }
unfolding add_processes add_process
add_processes-all s [] = ap (λ l. record s { all_processes = l }) (sym (append-nil s.all_processes))
add_processes-all s (p ∷ ps) =
    add_processes-all (add_process s p) ps
    ∙ ap (λ l. record s { all_processes = l }) (append_assoc s.all_processes (p ∷ []) ps)

fresh-Fits : (ps : List Process) (i : ℕ) → All IsFresh ps → Fits 0 0 (get_elem? ps i)
fresh-Fits [] i h = (refl, refl)
fresh-Fits (p ∷ ps) zero ((state, ends, burst), h) = (
  subst (λ s. Agree s 0 0) (sym state) (refl, refl),
  ends,
  subst (λ s. HasBurst s p) (sym state) burst,
)
fresh-Fits (p ∷ ps) (suc i) (f, h) = fresh-Fits ps i h

module _ {A : Type 0} (memory : Memory A) where
  pub start-IsValid :
      (a : A) (quantum : ℕ) (ps : List Process)
      → All IsFresh ps
      → IsValid (add_processes (construct a quantum) ps)
  unfolding IsValid IsConsistent construct
  start-IsValid a quantum ps h =
      subst IsValid (sym (add_processes-all (construct a quantum) ps)) (λ i. fresh-Fits ps i h)

  slice-IsValid :
      (l : List ℕ) (s : Scheduler A)
      → l ≡ s.ready_queue
      → IsValid s
      → (t : Scheduler A) × (run_slice memory l s ≡ some t) × IsValid t
  unfolding run_slice IsValid IsConsistent
  slice-IsValid [] s e v = (s, refl, v)
  slice-IsValid (i ∷ rest) s e v =
      let c =
        subst (λ q. IsConsistent s.all_processes (λ j. count j q) (λ j. count j s.waiting_list))
          (sym e) v in
      elim (Option-cases (get_elem? s.all_processes i)) [
        | inl out ↦ absurd (outside c out)
        | inr (p, at) ↦ run_process-IsValid memory (record s { ready_queue = rest }) i at c
      ]
    where
      outside :
          IsConsistent s.all_processes (λ j. count j (i ∷ rest)) (λ j. count j s.waiting_list)
          → get_elem? s.all_processes i ≡ none
          → ⊥
      outside c out =
          let h = subst (Fits (count i (i ∷ rest)) (count i s.waiting_list)) out (c i) in
          omega (arith, h.0, count_self i rest)

  pub tick-IsValid :
      (s : Scheduler A) → IsValid s → (t : Scheduler A) × (run_tick memory s ≡ some t) × IsValid t
  unfolding run_tick IsValid Served
  tick-IsValid s v =
      let (ps, a, q) = admit_pending memory s.tick 0 s.all_processes s.allocator s.ready_queue in
      let (w, qs, r) = service_io s.waiting_list ps q in
      let admitted =
        admit-IsConsistent memory s.tick s.all_processes s.allocator s.ready_queue
          (λ j. count j s.waiting_list) v in
      let served =
        service-IsConsistent s.waiting_list ps q (λ j. 0)
          (IsConsistent-eq ps (λ j. count j q) (λ j. count j s.waiting_list) (λ j. count j q)
            (λ j. 0 + count j s.waiting_list) (λ j. (refl, omega arith)) admitted) in
      slice-IsValid r
        (record s { allocator = a; all_processes = qs; ready_queue = r; waiting_list = w }) refl
        (IsConsistent-eq qs (λ j. count j r) (λ j. 0 + count j w) (λ j. count j r) (λ j. count j w)
          (λ j. (refl, omega arith)) served)

  run-IsValid :
      (left : ℕ) (s : Scheduler A)
      → IsValid s
      → (t : Scheduler A) × (run memory left s ≡ some t) × IsValid t
  unfolding run IsValid unless_over
  run-IsValid zero s v = (s, refl, v)
  run-IsValid (suc left) s v =
      let next : Scheduler A → Option (Scheduler A) =
        λ t. run memory left (record t { tick = suc t.tick }) in
      let (t, e, w) = tick-IsValid s v in
      let (u, f, x) = run-IsValid left (record t { tick = suc t.tick }) (later t w) in
      elim (Bool-cases (all_terminated t.all_processes)) [
        | inl over ↦ (t, ap (λ o. unless_over o next) e ∙ rw over refl, w)
        | inr more ↦ (u, ap (λ o. unless_over o next) e ∙ rw more f, x)
      ]
    where
      later : (t : Scheduler A) → IsValid t → IsValid (record t { tick = suc t.tick })
      later t w = w

  -- Whatever the allocator answers and however many ticks are given: a run over fresh processes,
  -- whose last burst has no I/O, returns, so that every process that it ran and the burst that it
  -- read were in range; and it ends with each process in the ready queue once if it is ready, in
  -- the waiting list once if it waits, and in neither if it is new or terminated, with no process
  -- running and no index out of range in either.
  pub run_stays_in_range :
      (a : A) (quantum max_ticks : ℕ) (ps : List Process)
      → All IsFresh ps
      → (t : Scheduler A) × (run memory max_ticks (add_processes (construct a quantum) ps) ≡ some t)
        × ((i : ℕ)
            → Fits (count i t.ready_queue) (count i t.waiting_list) (get_elem? t.all_processes i))
  unfolding IsValid IsConsistent
  run_stays_in_range a quantum max_ticks ps h =
      run-IsValid max_ticks (add_processes (construct a quantum) ps) (start-IsValid a quantum ps h)
