-- ===== src/Os/Scheduler/Slices.antt =====
-- A slice of the CPU keeps the queues and the states in agreement, and reads no burst out of range;
-- so does every tick, and every run.
use memory_allocator.Base.{
  ℕ, zero, suc, ◌-◌, ◌<◌, ◌≡◌, ◌≢◌, refl, ap, subst, min, ltb, ltb→lt, ◌==◌, if◌then◌else◌,
  Bool-cases, inl, inr, Option, none, some, List, [], ◌∷◌, ◌++◌, length, get_elem?, set, arith,
}
use memory_allocator.Base.Count.{count}
use memory_allocator.Os.Process.{
  ProcessState, new, ready, running, waiting, terminated, Burst, Process, has_more_bursts,
}
use memory_allocator.Os.Scheduler.{
  Memory, Scheduler, requeue, request_io, terminate, next_burst, after_run, run_burst, run_process,
}
use memory_allocator.Os.Scheduler.Queues.{
  Agree, EndsOnCpu, HasBurst, Fits, IsConsistent, set-IsConsistent, count-snoc, count_self,
  count_other,
}

-- The queues of a scheduler agree with its processes.
unfoldable pub IsValid : {A : Type 0} → Scheduler A → Type 0
IsValid s = IsConsistent s.all_processes (λ j. count j s.ready_queue) (λ j. count j s.waiting_list)

pub ready-Agree :
    (s : ProcessState) (r w : ℕ) → Agree s r w → 0 < r → (s ≡ ready) × (r ≡ 1) × (w ≡ 0)
ready-Agree new r w a h = absurd (omega (arith, a.0, h))
ready-Agree ready r w a h = (refl, a.0, a.1)
ready-Agree running r w a h = elim a [ ]
ready-Agree waiting r w a h = absurd (omega (arith, a.0, h))
ready-Agree terminated r w a h = absurd (omega (arith, a.0, h))

-- A burst with I/O is not the last.
abbrev io_of : Option Burst → ℕ
io_of none = 0
io_of (some b) = b.io_ticks

EndsOnCpu-next :
    (l : List Burst) (k : ℕ) {b : Burst}
    → EndsOnCpu l
    → get_elem? l k ≡ some b
    → 0 < b.io_ticks
    → suc k < length l
EndsOnCpu-next [] k h e z = elim h [ ]
EndsOnCpu-next (x ∷ []) zero h e z = absurd (omega (arith, h, ap (λ o. io_of o) e, z))
EndsOnCpu-next (x ∷ []) (suc k) h e z = ground (arith, e)
EndsOnCpu-next (x ∷ y ∷ l) zero h e z = omega arith
EndsOnCpu-next (x ∷ y ∷ l) (suc k) h e z = omega (arith, EndsOnCpu-next (y ∷ l) k h e z)

get_elem-lt {ℓ} :
    {A : Type ℓ} (l : List A) (k : ℕ) → k < length l → (a : A) × (get_elem? l k ≡ some a)
get_elem-lt [] k h = absurd (omega (arith, h))
get_elem-lt (x ∷ l) zero h = (x, refl)
get_elem-lt (x ∷ l) (suc k) h = get_elem-lt l k (omega (arith, h))

module _ {A : Type 0} (memory : Memory A) where
  -- The process at the index that was in front of the ready queue.
  module _ (s : Scheduler A) (i : ℕ) {p : Process} (e : get_elem? s.all_processes i ≡ some p)
      (c : IsConsistent s.all_processes
        (λ j. count j (i ∷ s.ready_queue))
        (λ j. count j s.waiting_list)) where
    front :
        (count i s.ready_queue ≡ 0)
        × (count i s.waiting_list ≡ 0)
        × EndsOnCpu p.bursts
        × (p.current_burst < length p.bursts)
    unfolding IsConsistent
    front =
        let (agree, ends, burst) =
          subst (Fits (count i (i ∷ s.ready_queue)) (count i s.waiting_list)) e (c i) in
        let (state, r, w) =
          ready-Agree p.state (count i (i ∷ s.ready_queue)) (count i s.waiting_list) agree
            (omega (arith, count_self i s.ready_queue)) in
        (
          omega (arith, r, count_self i s.ready_queue),
          w,
          ends,
          subst (λ t. HasBurst t p) state burst,
        )

    -- The process is set, and its index enters at most one of the queues.
    moved :
        (q : Process) (r w : ℕ → ℕ)
        → Fits (r i) (w i) (some q)
        → ((j : ℕ) → j ≢ i → (r j ≡ count j s.ready_queue) × (w j ≡ count j s.waiting_list))
        → IsConsistent (set s.all_processes i q) r w
    moved q r w f others =
        set-IsConsistent s.all_processes (λ j. count j (i ∷ s.ready_queue))
          (λ j. count j s.waiting_list) r w i q c e f
          (λ j ne.
            let (x, y) = others j ne in (omega (arith, x, count_other i j s.ready_queue ne), y))

    requeue-IsValid :
        (q : Process)
        → EndsOnCpu q.bursts
        → q.current_burst < length q.bursts
        → IsValid (requeue memory s i q)
    unfolding IsValid requeue
    requeue-IsValid q ends burst =
        moved (record q { state = ready }) (λ j. count j (s.ready_queue ++ i ∷ []))
          (λ j. count j s.waiting_list)
          (
            (omega (arith, count-snoc i i s.ready_queue, count_self i [], front.0), front.1),
            ends,
            burst,
          )
          (λ j ne. (omega (arith, count-snoc j i s.ready_queue, count_other i j [] ne), refl))

    request_io-IsValid :
        (q : Process) (io : ℕ)
        → EndsOnCpu q.bursts
        → suc q.current_burst < length q.bursts
        → IsValid (request_io memory s i q io)
    unfolding IsValid request_io
    request_io-IsValid q io ends burst =
        moved
          (record q {
            state = waiting;
            remaining_io_ticks = io;
            current_burst = suc q.current_burst;
          })
          (λ j. count j s.ready_queue) (λ j. count j (s.waiting_list ++ i ∷ []))
          (
            (front.0, omega (arith, count-snoc i i s.waiting_list, count_self i [], front.1)),
            ends,
            burst,
          )
          (λ j ne. (refl, omega (arith, count-snoc j i s.waiting_list, count_other i j [] ne)))

    terminate-IsValid : (q : Process) → EndsOnCpu q.bursts → IsValid (terminate memory s i q)
    unfolding IsValid terminate
    terminate-IsValid q ends =
        moved (record q { state = terminated }) (λ j. count j s.ready_queue)
          (λ j. count j s.waiting_list) ((front.0, front.1), ends, tt) (λ j ne. (refl, refl))

    after_run-IsValid :
        (q : Process) (b : Burst)
        → EndsOnCpu q.bursts
        → q.current_burst < length q.bursts
        → get_elem? q.bursts q.current_burst ≡ some b
        → IsValid (after_run memory s i q b)
    unfolding after_run next_burst has_more_bursts
    after_run-IsValid q b ends burst at =
        let next = record q { current_burst = suc q.current_burst } in
        elim (Bool-cases (ltb 0 q.remaining_cpu_ticks)) [
          | inl more ↦ rw more (requeue-IsValid q ends burst)
          | inr over ↦ rw over elim (Bool-cases (ltb 0 b.io_ticks)) [
            | inl io ↦ rw io (
                request_io-IsValid q b.io_ticks ends
                  (EndsOnCpu-next q.bursts q.current_burst ends at (ltb→lt 0 b.io_ticks io)))
            | inr direct ↦
                rw direct elim (Bool-cases (ltb (suc q.current_burst) (length q.bursts))) [
                  | inl again ↦ rw again (
                      requeue-IsValid next ends
                        (ltb→lt (suc q.current_burst) (length q.bursts) again))
                  | inr last ↦ rw last (terminate-IsValid next ends)
                ]
          ]
        ]

    pub run_process-IsValid :
        (t : Scheduler A) × (run_process memory s i (get_elem? s.all_processes i) ≡ some t)
        × IsValid t
    unfolding run_process run_burst
    run_process-IsValid =
        let (r, w, ends, burst) = front in
        let (b, at) = get_elem-lt p.bursts p.current_burst burst in
        let due = if p.remaining_cpu_ticks == 0 then b.cpu_ticks else p.remaining_cpu_ticks in
        let q = record p { state = running; remaining_cpu_ticks = due - min s.quantum due } in
        (after_run memory s i q b, rw (e, at) refl, after_run-IsValid q b ends burst at)
