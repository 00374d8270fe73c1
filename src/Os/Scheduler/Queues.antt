-- ===== src/Os/Scheduler/Queues.antt =====
-- The queues of the scheduler agree with the states of the processes, and no read is out of range.
use memory_allocator.Base.{
  ℕ, suc, ◌+◌, ◌-◌, ◌<◌, ◌≡◌, ◌≢◌, refl, sym, subst, ◌==◌, ==→eq, ==→ne, if◌then◌else◌, Bool, true,
  false, Bool-cases, inl, inr, Option, none, some, Option-cases, List, [], ◌∷◌, ◌++◌, length,
  get_elem?, set, get_elem-set, arith,
}
use memory_allocator.Base.Count.{count, count-append}
use memory_allocator.Os.Process.{
  ProcessState, new, ready, running, waiting, terminated, Burst, Process,
}
use memory_allocator.Os.Scheduler.{serve, service_io}

-- How often a process of a state stands in the ready queue and in the waiting list.
abbrev pub Agree : ProcessState → ℕ → ℕ → Type 0
Agree new r w = (r ≡ 0) × (w ≡ 0)
Agree ready r w = (r ≡ 1) × (w ≡ 0)
Agree running r w = ⊥
Agree waiting r w = (r ≡ 0) × (w ≡ 1)
Agree terminated r w = (r ≡ 0) × (w ≡ 0)

-- The last burst has no I/O, and there is one.
abbrev pub EndsOnCpu : List Burst → Type 0
EndsOnCpu [] = ⊥
EndsOnCpu (b ∷ []) = b.io_ticks ≡ 0
EndsOnCpu (b ∷ c ∷ rest) = EndsOnCpu (c ∷ rest)

-- A process that has not ended has a current burst.
abbrev pub HasBurst : ProcessState → Process → Type 0
HasBurst terminated p = Unit
HasBurst new p = p.current_burst < length p.bursts
HasBurst ready p = p.current_burst < length p.bursts
HasBurst running p = p.current_burst < length p.bursts
HasBurst waiting p = p.current_burst < length p.bursts

-- What holds of the process at an index that stands in the queues so often.
abbrev pub Fits : ℕ → ℕ → Option Process → Type 0
Fits r w none = (r ≡ 0) × (w ≡ 0)
Fits r w (some p) = Agree p.state r w × EndsOnCpu p.bursts × HasBurst p.state p

-- What holds between the parts of a tick, of the processes and the numbers of times that an index
-- stands in the ready queue and the waiting list.
unfoldable pub IsConsistent : List Process → (ℕ → ℕ) → (ℕ → ℕ) → Type 0
IsConsistent procs r w = (i : ℕ) → Fits (r i) (w i) (get_elem? procs i)

pub Fits-eq : {r r' w w' : ℕ} (o : Option Process) → r' ≡ r → w' ≡ w → Fits r w o → Fits r' w' o
Fits-eq {r} {r'} {w} {w'} o e f h =
    subst (λ n. Fits n w' o) (sym e) (subst (λ n. Fits r n o) (sym f) h)

-- One process changes, and its index moves between the queues.
pub set-IsConsistent :
    (procs : List Process) (r w r' w' : ℕ → ℕ) (i : ℕ) {p : Process} (q : Process)
    → IsConsistent procs r w
    → get_elem? procs i ≡ some p
    → Fits (r' i) (w' i) (some q)
    → ((j : ℕ) → j ≢ i → (r' j ≡ r j) × (w' j ≡ w j))
    → IsConsistent (set procs i q) r' w'
unfolding IsConsistent
set-IsConsistent procs r w r' w' i q c e f others j =
    rw (get_elem-set procs i j q e) elim (Bool-cases (j == i)) [
      | inl same ↦ rw same (subst (λ k. Fits (r' k) (w' k) (some q)) (sym (==→eq j i same)) f)
      | inr other ↦
          let (x, y) = others j (==→ne j i other) in
          rw other (Fits-eq (get_elem? procs j) x y (c j))
    ]

pub IsConsistent-eq :
    (procs : List Process) (r w r' w' : ℕ → ℕ)
    → ((j : ℕ) → (r' j ≡ r j) × (w' j ≡ w j))
    → IsConsistent procs r w
    → IsConsistent procs r' w'
unfolding IsConsistent
IsConsistent-eq procs r w r' w' e c j = Fits-eq (get_elem? procs j) (e j).0 (e j).1 (c j)

-- A process that stands in the waiting list waits.
waiting-Agree :
    (s : ProcessState) (r w : ℕ) → Agree s r w → 0 < w → (s ≡ waiting) × (r ≡ 0) × (w ≡ 1)
waiting-Agree new r w a h = absurd (omega (arith, a.1, h))
waiting-Agree ready r w a h = absurd (omega (arith, a.1, h))
waiting-Agree running r w a h = elim a [ ]
waiting-Agree waiting r w a h = (refl, a.0, a.1)
waiting-Agree terminated r w a h = absurd (omega (arith, a.1, h))

pub count-snoc : (j i : ℕ) (l : List ℕ) → count j (l ++ i ∷ []) ≡ count j l + count j (i ∷ [])
count-snoc j i l = count-append j l (i ∷ [])

pub count_self : (i : ℕ) (l : List ℕ) → count i (i ∷ l) ≡ suc (count i l)
count_self i l = ground arith

pub count_other : (i j : ℕ) (l : List ℕ) → j ≢ i → count j (i ∷ l) ≡ count j l
count_other i j l h = ground (arith, h)

-- The processes and queues that `service_io` leaves, with `kept` for the indices before.
unfoldable pub Served : (ℕ → ℕ) → List ℕ × List Process × List ℕ → Type 0
Served kept (l, procs, queue) = IsConsistent procs (λ j. count j queue) (λ j. kept j + count j l)

-- An index that waits is in range.
pub outside-waits :
    (i : ℕ) (l : List ℕ) (procs : List Process) (queue : List ℕ) (kept : ℕ → ℕ)
    → IsConsistent procs (λ j. count j queue) (λ j. kept j + count j (i ∷ l))
    → get_elem? procs i ≡ none
    → ⊥
unfolding IsConsistent
outside-waits i l procs queue kept c e =
    let h = subst (Fits (count i queue) (kept i + count i (i ∷ l))) e (c i) in
    omega (arith, h.1, count_self i l)

module _ (i : ℕ) (l : List ℕ) (procs : List Process) (queue : List ℕ) {p : Process}
    (e : get_elem? procs i ≡ some p) where
  abbrev left : ℕ
  left = p.remaining_io_ticks - 1

  pub done-serve :
      (left == 0) ≡ true
      → serve (get_elem? procs i) i procs queue ≡ (
        false,
        set procs i (record p { remaining_io_ticks = left; state = ready }),
        queue ++ i ∷ [],
      )
  unfolding serve
  done-serve z = rw (e, z) refl

  pub kept-serve :
      (left == 0) ≡ false
      → serve (get_elem? procs i) i procs queue
        ≡ (true, set procs i (record p { remaining_io_ticks = left }), queue)
  unfolding serve
  kept-serve z = rw (e, z) refl

  module _ (kept : ℕ → ℕ)
      (c : IsConsistent procs (λ j. count j queue) (λ j. kept j + count j (i ∷ l))) where
    -- The process waits, and stands in the waiting list once.
    pub waits :
        (p.state ≡ waiting)
        × (count i queue ≡ 0)
        × (kept i + count i l ≡ 0)
        × EndsOnCpu p.bursts
        × (p.current_burst < length p.bursts)
    unfolding IsConsistent
    waits =
        let (agree, ends, burst) =
          subst (Fits (count i queue) (kept i + count i (i ∷ l))) e (c i) in
        let (state, r, w) =
          waiting-Agree p.state (count i queue) (kept i + count i (i ∷ l)) agree
            (omega (arith, count_self i l)) in
        (state, r, omega (arith, w, count_self i l), ends, subst (λ s. HasBurst s p) state burst)

    pub done-IsConsistent :
        IsConsistent
          (set procs i (record p { remaining_io_ticks = left; state = ready }))
          (λ j. count j (queue ++ i ∷ []))
          (λ j. kept j + count j l)
    done-IsConsistent =
        let (state, r, w, ends, burst) = waits in
        set-IsConsistent procs (λ j. count j queue) (λ j. kept j + count j (i ∷ l))
          (λ j. count j (queue ++ i ∷ [])) (λ j. kept j + count j l) i
          (record p { remaining_io_ticks = left; state = ready }) c e
          ((omega (arith, count-snoc i i queue, count_self i [], r), w), ends, burst)
          (λ j ne. (
            omega (arith, count-snoc j i queue, count_other i j [] ne),
            omega (arith, count_other i j l ne),
          ))

    pub kept-IsConsistent :
        IsConsistent
          (set procs i (record p { remaining_io_ticks = left }))
          (λ j. count j queue)
          (λ j. kept j + count j (i ∷ []) + count j l)
    kept-IsConsistent =
        let (state, r, w, ends, burst) = waits in
        set-IsConsistent procs (λ j. count j queue) (λ j. kept j + count j (i ∷ l))
          (λ j. count j queue) (λ j. kept j + count j (i ∷ []) + count j l) i
          (record p { remaining_io_ticks = left }) c e
          (
            subst (λ s. Agree s (count i queue) (kept i + count i (i ∷ []) + count i l)) (sym state)
                (r, omega (arith, w, count_self i [])),
            ends,
            subst (λ s. HasBurst s (record p { remaining_io_ticks = left })) (sym state) burst,
          )
          (λ j ne. (refl, omega (arith, count_other i j [] ne, count_other i j l ne)))

-- The rest of the loop after a round of the index `i`.
go_on : ℕ → List ℕ → Bool × List Process × List ℕ → List ℕ × List Process × List ℕ
go_on i l (stays, ps, q) = let (w, qs, r) = service_io l ps q in (if stays then i ∷ w else w, qs, r)

pub service-IsConsistent :
    (l : List ℕ) (procs : List Process) (queue : List ℕ) (kept : ℕ → ℕ)
    → IsConsistent procs (λ j. count j queue) (λ j. kept j + count j l)
    → Served kept (service_io l procs queue)
unfolding service_io Served go_on
service-IsConsistent [] procs queue kept c = c
service-IsConsistent (i ∷ l) procs queue kept c = elim (Option-cases (get_elem? procs i)) [
  | inl e ↦ absurd (outside-waits i l procs queue kept c e)
  | inr (p, e) ↦
      let left = p.remaining_io_ticks - 1 in
      let rest = set procs i (record p { remaining_io_ticks = left }) in
      let served =
        service-IsConsistent l (set procs i (record p { remaining_io_ticks = left; state = ready }))
          (queue ++ i ∷ []) kept (done-IsConsistent i l procs queue e kept c) in
      let stays =
        service-IsConsistent l rest queue (λ j. kept j + count j (i ∷ []))
          (kept-IsConsistent i l procs queue e kept c) in
      elim (Bool-cases (left == 0)) [
        | inl z ↦
            subst (λ a. Served kept (go_on i l a)) (sym (done-serve i l procs queue e z)) served
        | inr z ↦
            let (w, ps, r) = service_io l rest queue in
            subst (λ a. Served kept (go_on i l a)) (sym (kept-serve i l procs queue e z))
              (IsConsistent-eq ps (λ j. count j r) (λ j. kept j + count j (i ∷ []) + count j w)
                (λ j. count j r) (λ j. kept j + count j (i ∷ w)) (λ j. (refl, omega arith)) stays)
      ]
]
