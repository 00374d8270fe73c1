-- ===== src/Sim/Scheduling/Collect.antt =====
-- Arrivals and completions keep each process in its place.
use memory_allocator.Base.{
  ℕ, zero, suc, ◌+◌, ◌≤◌, ◌<◌, ◌≡◌, ◌≢◌, refl, sym, subst, ◌∙◌, ◌==◌, ◌&&◌, if◌then◌else◌, Bool,
  true, false, Bool-cases, inl, inr, Option, none, some, List, [], ◌∷◌, get_elem?, set, arith,
}
use memory_allocator.Sched.Process.{ready, terminated, Process, sub32, advance_burst, current_burst}
use memory_allocator.Sim.Scheduling.{
  Policy, is_new, enqueue, arrive, arrivals, load, after_io, complete, settle, completions,
}
use memory_allocator.Sim.Scheduling.Places.{
  one, one_self, one_other, waits, IsKeeper, InPlace, Fits, Fits-eq, IsPlaced, IsPlaced-eq,
  set-IsPlaced, new-Agree, waits-Agree,
}

module _ {S : Type 0} (policy : Policy S) (keeper : IsKeeper policy) (Lost : ℕ → Process → Type 0)
    (since : ℕ)
    (late : (i : ℕ) (p : Process) → Lost i p → (is_new p.state ≡ true) × (p.arrival < since)) where
  -- A process that is not new is not lost.
  pub not_new-Lost :
      (i : ℕ) (p x : Process) → is_new p.state ≡ false → Lost i x → some p ≡ some x → ⊥
  not_new-Lost i p x e l f =
      let same : p ≡ x = cc f in
      let h = (late i x l).0 in
      let k = subst (λ y. is_new y.state ≡ false) same e in ground (arith, h, k)

  arrive-Fits :
      (tick i : ℕ) (s : S) (p : Process) (r w : ℕ)
      → since ≤ tick
      → Fits Lost i (keeper.held s i) r w (some p)
      → let (t, q) = arrive policy tick s i p in Fits Lost i (keeper.held t i) r w (some q)
  unfolding arrive enqueue
  arrive-Fits tick i s p r w t f = elim (Bool-cases (is_new p.state && p.arrival == tick)) [
    | inr later ↦ rw later f
    | inl now ↦
        let q = record p { state = ready } in
        let (h_is, r_is, w_is) =
          new-Agree p.state (keeper.held s i) r w (ground (arith, now)) f.0 in
        rw now (
          (omega (arith, keeper.adds s i q i, one_self i, h_is), r_is, w_is),
          λ x l. absurd (clash x l now (f.1 x l)),
        )
  ]
    where
      clash :
          (x : Process)
          → Lost i x
          → (is_new p.state && p.arrival == tick) ≡ true
          → some p ≡ some x
          → ⊥
      clash x l now e =
          let same : p ≡ x = cc e in
          let h = (late i x l).1 in
          let k = subst (λ y. y.arrival < since) (sym same) h in ground (arith, now, k, t)

  arrive-other :
      (tick i j : ℕ) (s : S) (p : Process)
      → j ≢ i
      → keeper.held (arrive policy tick s i p).0 j ≡ keeper.held s j
  unfolding arrive enqueue
  arrive-other tick i j s p ne = elim (Bool-cases (is_new p.state && p.arrival == tick)) [
    | inr later ↦ rw later refl
    | inl now ↦
        rw now omega (arith, keeper.adds s i (record p { state = ready }) j, one_other i j ne)
  ]

  -- The list of processes from index `i` on.
  abbrev From : ℕ → List Process → S → (ℕ → ℕ) → (ℕ → ℕ) → Type 0
  From i ps s r w =
      (k : ℕ) → Fits Lost (i + k) (keeper.held s (i + k)) (r (i + k)) (w (i + k)) (get_elem? ps k)

  From-cons :
      (i : ℕ) (q : Process) (qs : List Process) (s : S) (r w : ℕ → ℕ)
      → Fits Lost i (keeper.held s i) (r i) (w i) (some q)
      → From (suc i) qs s r w
      → From i (q ∷ qs) s r w
  From-cons i q qs s r w f h zero =
      let e : i ≡ i + 0 = omega arith in
      subst (λ n. Fits Lost n (keeper.held s n) (r n) (w n) (some q)) e f
  From-cons i q qs s r w f h (suc k) =
      let e : suc i + k ≡ i + suc k = omega arith in
      subst (λ n. Fits Lost n (keeper.held s n) (r n) (w n) (get_elem? qs k)) e (h k)

  From-rest :
      (i : ℕ) (p : Process) (ps : List Process) (s : S) (r w : ℕ → ℕ)
      → From i (p ∷ ps) s r w
      → Fits Lost i (keeper.held s i) (r i) (w i) (some p) × From (suc i) ps s r w
  From-rest i p ps s r w h =
      let e : i + 0 ≡ i = omega arith in
      (
        subst (λ n. Fits Lost n (keeper.held s n) (r n) (w n) (some p)) e (h 0),
        λ k.
            let f : i + suc k ≡ suc i + k = omega arith in
            subst (λ n. Fits Lost n (keeper.held s n) (r n) (w n) (get_elem? ps k)) f (h (suc k)),
      )

  arrivals-From :
      (tick i : ℕ) (ps : List Process) (s : S) (r w : ℕ → ℕ)
      → since ≤ tick
      → From i ps s r w
      → let (u, qs) = arrivals policy tick s i ps in
        From i qs u r w × ((j : ℕ) → j < i → keeper.held u j ≡ keeper.held s j)
  unfolding arrivals
  arrivals-From tick i [] s r w l h = (h, λ j x. refl)
  arrivals-From tick i (p ∷ ps) s r w l h =
      let (t, q) = arrive policy tick s i p in
      let (u, qs) = arrivals policy tick t (suc i) ps in
      let (first, others) = From-rest i p ps s r w h in
      let (rest, before) = arrivals-From tick (suc i) ps t r w l (λ k.
        Fits-eq Lost (get_elem? ps k) (arrive-other tick i (suc i + k) s p (omega arith)) refl refl
          (others k)) in
      (
        From-cons i q qs u r w
            (Fits-eq Lost (some q) (before i (omega arith)) refl refl
              (arrive-Fits tick i s p (r i) (w i) l first))
            rest,
        λ j x. before j (omega (arith, x)) ∙ arrive-other tick i j s p (omega (arith, x)),
      )

  pub arrivals-IsPlaced :
      (tick : ℕ) (ps : List Process) (s : S) (r w : ℕ → ℕ)
      → since ≤ tick
      → IsPlaced Lost (keeper.held s) r w ps
      → let (u, qs) = arrivals policy tick s 0 ps in IsPlaced Lost (keeper.held u) r w qs
  unfolding IsPlaced
  arrivals-IsPlaced tick ps s r w l c =
      let (u, qs) = arrivals policy tick s 0 ps in
      let back : (n : ℕ) → 0 + n ≡ n = λ n. omega arith in
      let h =
        (arrivals-From tick 0 ps s r w l (λ k.
          subst (λ n. Fits Lost n (keeper.held s n) (r n) (w n) (get_elem? ps k)) (sym (back k))
            (c k))).0 in
      λ k. subst (λ n. Fits Lost n (keeper.held u n) (r n) (w n) (get_elem? qs k)) (back k) (h k)

  -- What a completion leaves.
  abbrev Completed : (ℕ → ℕ) → (ℕ → ℕ) → S × List Process → Type 0
  Completed r w (t, ps) = IsPlaced Lost (keeper.held t) r w ps

  module _ (tick i left : ℕ) (s : S) (procs : List Process) (r kept : ℕ → ℕ) (l : List (ℕ × ℕ))
      (c : IsPlaced Lost (keeper.held s) r (λ j. kept j + waits ((i, left) ∷ l) j) procs) where
    -- The process at the index waits.
    its_place :
        (p : Process)
        → get_elem? procs i ≡ some p
        → (is_new p.state ≡ false)
          × (keeper.held s i ≡ 0)
          × (r i ≡ 0)
          × (kept i + waits ((i, left) ∷ l) i ≡ 1)
    unfolding IsPlaced
    its_place p e =
        waits-Agree p.state (keeper.held s i) (r i) (kept i + waits ((i, left) ∷ l) i)
          (omega (arith, one_self i))
          (subst (InPlace (keeper.held s i) (r i) (kept i + waits ((i, left) ∷ l) i)) e (c i).0)

    after_io-IsPlaced :
        (p : Process)
        → get_elem? procs i ≡ some p
        → (a : Bool × Process)
        → let (t, q) = after_io policy tick s i a in
          Completed r (λ j. kept j + waits l j) (t, set procs i q)
    unfolding after_io enqueue
    after_io-IsPlaced p e (true, p') =
        let (not_new, h, runs, w) = its_place p e in
        let q = record (load policy p' (current_burst p')) { state = ready } in
        set-IsPlaced Lost (keeper.held s) r (λ j. kept j + waits ((i, left) ∷ l) j)
          (keeper.held (policy.add s i q)) r (λ j. kept j + waits l j) procs i p q c e
          (λ x lost. not_new-Lost i p x not_new lost)
          (omega (arith, keeper.adds s i q i, one_self i, h), runs, omega (arith, w, one_self i))
          (λ j ne. (
            omega (arith, keeper.adds s i q j, one_other i j ne),
            refl,
            omega (arith, one_other i j ne),
          ))
    after_io-IsPlaced p e (false, p') =
        let (not_new, h, runs, w) = its_place p e in
        set-IsPlaced Lost (keeper.held s) r (λ j. kept j + waits ((i, left) ∷ l) j) (keeper.held s)
          r (λ j. kept j + waits l j) procs i p (record p' { state = terminated; finish = tick }) c
          e (λ x lost. not_new-Lost i p x not_new lost) (h, runs, omega (arith, w, one_self i))
          (λ j ne. (refl, refl, omega (arith, one_other i j ne)))

    complete-IsPlaced :
        (o : Option Process)
        → get_elem? procs i ≡ o
        → Completed r (λ j. kept j + waits l j) (complete policy tick s i procs o)
    unfolding complete IsPlaced
    complete-IsPlaced none e =
        let h =
          subst (InPlace (keeper.held s i) (r i) (kept i + waits ((i, left) ∷ l) i)) e (c i).0 in
        absurd (omega (arith, h.2, one_self i))
    complete-IsPlaced (some p) e = after_io-IsPlaced p e (advance_burst p)

    -- With how often the index stays among the waiting.
    settle-IsPlaced :
        (done : Bool)
        → Completed r
            (λ j. kept j + (if done then 0 else one i j) + waits l j)
            (settle policy tick s i procs done)
    unfolding settle
    settle-IsPlaced true =
        let (t, ps) = complete policy tick s i procs (get_elem? procs i) in
        IsPlaced-eq Lost (keeper.held t) r (λ j. kept j + waits l j) (keeper.held t) r
          (λ j. kept j + 0 + waits l j) ps (λ j. (refl, refl, omega arith))
          (complete-IsPlaced (get_elem? procs i) refl)
    settle-IsPlaced false =
        IsPlaced-eq Lost (keeper.held s) r (λ j. kept j + waits ((i, left) ∷ l) j) (keeper.held s) r
          (λ j. kept j + one i j + waits l j) procs (λ j. (refl, refl, omega arith)) c

  waits-if :
      (done : Bool) (i left j : ℕ) (w : List (ℕ × ℕ))
      → waits (if done then w else (i, left) ∷ w) j ≡ (if done then 0 else one i j) + waits w j
  waits-if true i left j w = omega arith
  waits-if false i left j w = refl

  pub completions-IsPlaced :
      (tick : ℕ) (l : List (ℕ × ℕ)) (s : S) (procs : List Process) (r kept : ℕ → ℕ)
      → IsPlaced Lost (keeper.held s) r (λ j. kept j + waits l j) procs
      → let (w, u, qs) = completions policy tick s procs l in
        IsPlaced Lost (keeper.held u) r (λ j. kept j + waits w j) qs
  unfolding completions
  completions-IsPlaced tick [] s procs r kept c = c
  completions-IsPlaced tick ((i, ticks) ∷ l) s procs r kept c =
      let left = sub32 ticks 1 in
      let done = left == 0 in
      let (t, ps) = settle policy tick s i procs done in
      let (w, u, qs) = completions policy tick t ps l in
      IsPlaced-eq Lost (keeper.held u) r (λ j. kept j + (if done then 0 else one i j) + waits w j)
        (keeper.held u) r (λ j. kept j + waits (if done then w else (i, left) ∷ w) j) qs
        (λ j. (refl, refl, omega (arith, waits-if done i left j w)))
        (completions-IsPlaced tick l t ps r (λ j. kept j + (if done then 0 else one i j))
          (settle-IsPlaced tick i left s procs r kept l c done))
