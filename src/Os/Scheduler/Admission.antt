-- ===== src/Os/Scheduler/Admission.antt =====
-- Admission keeps the queues and the states in agreement.
use memory_allocator.Base.{
  ℕ, zero, suc, ◌+◌, ◌<◌, ◌≡◌, ◌≢◌, refl, ap, subst, ◌∙◌, leb, if◌then◌else◌, ◌&&◌, Bool, true,
  false, Bool-cases, inl, inr, Option, none, some, List, [], ◌∷◌, ◌++◌, get_elem?, arith,
}
use memory_allocator.Base.Count.{count}
use memory_allocator.Os.Process.{ProcessState, new, ready, running, waiting, terminated, Process}
use memory_allocator.Os.Scheduler.{Memory, is_new, admit_with, admit, admit_pending}
use memory_allocator.Os.Scheduler.Queues.{
  Agree, HasBurst, Fits, IsConsistent, Fits-eq, count-snoc, count_self, count_other,
}

new-Agree :
    (s : ProcessState) (r w : ℕ) → is_new s ≡ true → Agree s r w → (s ≡ new) × (r ≡ 0) × (w ≡ 0)
new-Agree new r w e a = (refl, a.0, a.1)
new-Agree ready r w e a = ground (arith, e)
new-Agree running r w e a = ground (arith, e)
new-Agree waiting r w e a = ground (arith, e)
new-Agree terminated r w e a = ground (arith, e)

module _ {A : Type 0} (memory : Memory A) where
  -- An admission puts the index behind the ready queue exactly if it makes the process ready.
  Admitted : ℕ → ℕ → Process × A × Bool → Type 0
  Admitted r w (q, a, yes_no) = Fits (if yes_no then suc r else r) w (some q)

  admit-Admitted :
      (tick : ℕ) (p : Process) (a : A) (r w : ℕ)
      → Fits r w (some p)
      → Admitted r w (admit memory tick p a)
  unfolding admit admit_with Admitted
  admit-Admitted tick p a r w f = elim (Bool-cases (is_new p.state && leb p.arrival_tick tick)) [
    | inr later ↦ rw later f
    | inl now ↦ rw now (
        answered (memory.allocate a p.memory_request)
          (new-Agree p.state r w (ground (arith, now)) f.0))
  ]
    where
      answered :
          (o : Option ℕ × A)
          → (p.state ≡ new) × (r ≡ 0) × (w ≡ 0)
          → Admitted r w (admit_with memory p o)
      answered (none, b) h = f
      answered (some x, b) (state, r_is, w_is) =
          ((omega (arith, r_is), w_is), f.1, subst (λ s. HasBurst s p) state f.2)

  -- The queue after a process was looked at.
  abbrev joined : Bool → ℕ → List ℕ → List ℕ
  joined admitted i queue = if admitted then queue ++ i ∷ [] else queue

  joined_self :
      (ok : Bool) (i : ℕ) (queue : List ℕ)
      → count i (joined ok i queue) ≡ (if ok then suc (count i queue) else count i queue)
  joined_self true i queue = omega (arith, count-snoc i i queue, count_self i [])
  joined_self false i queue = refl

  joined_other :
      (ok : Bool) (i j : ℕ) (queue : List ℕ) → j ≢ i → count j (joined ok i queue) ≡ count j queue
  joined_other true i j queue ne = omega (arith, count-snoc j i queue, count_other i j [] ne)
  joined_other false i j queue ne = refl

  -- The list of processes from index `i` on.
  abbrev From : ℕ → List Process → (ℕ → ℕ) → (ℕ → ℕ) → Type 0
  From i ps r w = (k : ℕ) → Fits (r (i + k)) (w (i + k)) (get_elem? ps k)

  From-cons :
      (i : ℕ) (q : Process) (qs : List Process) (r w : ℕ → ℕ)
      → Fits (r i) (w i) (some q)
      → From (suc i) qs r w
      → From i (q ∷ qs) r w
  From-cons i q qs r w f h zero = Fits-eq (some q) (ap r (omega arith)) (ap w (omega arith)) f
  From-cons i q qs r w f h (suc k) =
      Fits-eq (get_elem? qs k) (ap r (omega arith)) (ap w (omega arith)) (h k)

  admit-From :
      (tick i : ℕ) (ps : List Process) (a : A) (queue : List ℕ) (w : ℕ → ℕ)
      → From i ps (λ j. count j queue) w
      → let (qs, b, r) = admit_pending memory tick i ps a queue in
        From i qs (λ j. count j r) w × ((j : ℕ) → j < i → count j r ≡ count j queue)
  unfolding admit_pending Admitted
  admit-From tick i [] a queue w h = (h, λ j l. refl)
  admit-From tick i (p ∷ ps) a queue w h =
      let (q, b, ok) = admit memory tick p a in
      let (rest, before) = admit-From tick (suc i) ps b (joined ok i queue) w (λ k.
        Fits-eq (get_elem? ps k)
          (joined_other ok i (suc i + k) queue (omega arith)
            ∙ ap (λ n. count n queue) (omega arith))
          (ap w (omega arith)) (h (suc k))) in
      let (qs, c, r) = admit_pending memory tick (suc i) ps b (joined ok i queue) in
      let first =
        Fits-eq (some p) (ap (λ n. count n queue) (omega arith)) (ap w (omega arith)) (h 0) in
      (
        From-cons i q qs (λ j. count j r) w
            (Fits-eq (some q) (before i (omega arith) ∙ joined_self ok i queue) refl
              (admit-Admitted tick p a (count i queue) (w i) first))
            rest,
        λ j l. before j (omega (arith, l)) ∙ joined_other ok i j queue (omega (arith, l)),
      )

  pub admit-IsConsistent :
      (tick : ℕ) (ps : List Process) (a : A) (queue : List ℕ) (w : ℕ → ℕ)
      → IsConsistent ps (λ j. count j queue) w
      → let (qs, b, r) = admit_pending memory tick 0 ps a queue in
        IsConsistent qs (λ j. count j r) w
  unfolding IsConsistent
  admit-IsConsistent tick ps a queue w c =
      let (qs, b, r) = admit_pending memory tick 0 ps a queue in
      let h =
        (admit-From tick 0 ps a queue w (λ k.
          Fits-eq (get_elem? ps k) (ap (λ n. count n queue) (omega arith)) (ap w (omega arith))
            (c k))).0 in
      λ k. Fits-eq (get_elem? qs k) (ap (λ n. count n r) (omega arith)) (ap w (omega arith)) (h k)
