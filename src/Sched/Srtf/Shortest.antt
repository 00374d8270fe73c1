-- ===== src/Sched/Srtf/Shortest.antt =====
-- The order in which SRTF and SJF run the processes that they were given.
use memory_allocator.Base.{
  ℕ, ◌+◌, ◌≡◌, refl, sym, ap, ◌∙◌, ltb, ◌==◌, not, true, Bool-cases, inl, inr, Bool, Option, none,
  some, List, [], ◌∷◌, length, arith,
}
use memory_allocator.Sched.Process.{Process}
use memory_allocator.Sched.PriorityQueue.{
  Entry, Comparison, PriorityQueue, IsPriorityQueue, IsStrictWeak, Lawful, one_if, count_if, Popped,
}
use memory_allocator.Sched.PriorityQueue.Drain.{
  fewer, fewer-least, count-true, InOrder, add_all, picks, IsShortest, add_all-count, picks-Drains,
}
use memory_allocator.Sched.Sjf
use memory_allocator.Sched.Srtf

srtf_cmp-IsStrictWeak : IsStrictWeak Srtf.cmp
unfolding Srtf.cmp
srtf_cmp-IsStrictWeak = record {
  irreflexive = λ a. ground arith;
  transitive = λ a b c p q. ground (arith, p, q);
  weak = λ a b c p q. ground (arith, p, q);
}

sjf_cmp-IsStrictWeak : IsStrictWeak Sjf.cmp
unfolding Sjf.cmp
sjf_cmp-IsStrictWeak = record {
  irreflexive = λ a. ground arith;
  transitive = λ a b c p q. ground (arith, p, q);
  weak = λ a b c p q. ground (arith, p, q);
}

no_stale :
    (ps : ℕ → Process) (js : List ℕ)
    → count_if (λ j. not ((ps j).burst_remaining == (ps j).burst_remaining)) js ≡ 0
no_stale ps [] = refl
no_stale ps (j ∷ js) = ground (arith, no_stale ps js)

module _ {Q : Type 0} (make : Comparison → PriorityQueue Q) (laws : Lawful make) (ps : ℕ → Process)
    (js : List ℕ) where
  -- The ticks that a process has left.
  abbrev pub left : ℕ → ℕ
  left j = (ps j).burst_remaining

  -- Everything that was added comes out, in order.
  drained :
      (entries : Q → List Entry) (add : Q → ℕ → Process → Q) (pick : Q → Option ℕ × Q) (q : Q)
      → entries q ≡ []
      → ((q : Q) (i : ℕ) (p : Process) (f : Entry → Bool)
          → count_if f (entries (add q i p))
            ≡ count_if f (entries q) + one_if (f (i, p.burst_remaining)))
      → ((q : Q) → IsShortest entries (entries q) (pick q))
      → let out = picks pick (length js) (add_all add ps q js) in
        ((f : ℕ → Bool) → count_if f out ≡ count_if f js) × InOrder left out
  drained entries add pick q nothing adds least =
      let all = add_all add ps q js in
      let count : (f : Entry → Bool) → count_if f (entries all) ≡ count_if (λ j. f (j, left j)) js =
        λ f. omega (arith, add_all-count entries add ps adds q js f, ap (count_if f) nothing) in
      let (same, order) =
        picks-Drains entries left pick least (length js) all
          (count (λ e. not (e.1 == left e.0)) ∙ no_stale ps js)
          (count (λ e. true) ∙ count-true js) in
      (λ f. same f ∙ count (λ e. f e.0), order)

  srtf : IsPriorityQueue Srtf.cmp (make Srtf.cmp)
  srtf = laws Srtf.cmp srtf_cmp-IsStrictWeak

  sjf : IsPriorityQueue Sjf.cmp (make Sjf.cmp)
  sjf = laws Sjf.cmp sjf_cmp-IsStrictWeak

  srtf_picked-IsShortest :
      (q : Q) (o : Option Entry)
      → Popped Srtf.cmp o (srtf.entries q) (srtf.entries ((make Srtf.cmp).pop q))
      → IsShortest srtf.entries (srtf.entries q) (Srtf.picked make q o)
  unfolding Srtf.cmp
  srtf_picked-IsShortest q none e = e
  srtf_picked-IsShortest q (some (i, ticks)) (counts, least) = (ticks, counts, least)

  sjf_picked-IsShortest :
      (q : Q) (o : Option Entry)
      → Popped Sjf.cmp o (sjf.entries q) (sjf.entries ((make Sjf.cmp).pop q))
      → IsShortest sjf.entries (sjf.entries q) (Sjf.picked make q o)
  unfolding Sjf.cmp
  sjf_picked-IsShortest q none e = e
  sjf_picked-IsShortest q (some (i, ticks)) (counts, least) = (ticks, counts, least)

  -- The running process is preempted exactly if a waiting process has fewer ticks left.
  preempts :
      (entries rest : List Entry) (o : Option Entry) (ticks : ℕ)
      → Popped Srtf.cmp o entries rest
      → Srtf.shorter make o ticks ≡ ltb 0 (fewer ticks entries)
  unfolding Srtf.cmp
  preempts entries rest none ticks e = rw e refl
  preempts entries rest (some (i, t)) ticks (counts, least) = elim (Bool-cases (ltb t ticks)) [
    | inl less ↦
        let one_more : one_if (ltb t ticks) ≡ 1 = ap one_if less in
        less ∙ sym (ground (arith, counts (λ e. ltb e.1 ticks), one_more))
    | inr not_less ↦
        let nothing = fewer-least t ticks entries least not_less in
        not_less ∙ sym (ground (arith, nothing))
  ]

  -- For std::priority_queue with its documented laws for every strict weak order: if processes of a
  -- table are added to a new SRTF scheduler and then picked as many times, each is picked as often as
  -- it was added, none before one with fewer ticks left; the same holds of a new SJF scheduler; and
  -- with those processes waiting, SRTF preempts a running process exactly if one of them has
  -- fewer ticks left than it.
  pub pick_next-InOrder :
      (running : ℕ) (p : Process) (ran_ticks : ℕ)
      → let waiting = add_all (Srtf.add make) ps (make Srtf.cmp).empty js in
        let out = picks (Srtf.pick_next make) (length js) waiting in
        let sjf_waiting = add_all (Sjf.add make) ps (make Sjf.cmp).empty js in
        let sjf_out = picks (Sjf.pick_next make) (length js) sjf_waiting in
        ((f : ℕ → Bool) → count_if f out ≡ count_if f js)
        × InOrder left out
        × ((f : ℕ → Bool) → count_if f sjf_out ≡ count_if f js)
        × InOrder left sjf_out
        × (Srtf.should_preempt make waiting running p ran_ticks
            ≡ ltb 0 (count_if (λ j. ltb (left j) p.burst_remaining) js))
  unfolding Srtf.add Srtf.pick_next Srtf.should_preempt Sjf.add Sjf.pick_next
  pick_next-InOrder running p ran_ticks =
      let adds : (q : Q) (i : ℕ) (p : Process) (f : Entry → Bool)
          → count_if f (srtf.entries (Srtf.add make q i p))
            ≡ count_if f (srtf.entries q) + one_if (f (i, p.burst_remaining)) =
        λ q i p f. srtf.pushes q (i, p.burst_remaining) f in
      let waiting = add_all (Srtf.add make) ps (make Srtf.cmp).empty js in
      let (same, order) =
        drained srtf.entries (Srtf.add make) (Srtf.pick_next make) (make Srtf.cmp).empty
          srtf.none_yet adds
          (λ q. srtf_picked-IsShortest q ((make Srtf.cmp).top q) (srtf.pops q)) in
      let (sjf_same, sjf_order) =
        drained sjf.entries (Sjf.add make) (Sjf.pick_next make) (make Sjf.cmp).empty sjf.none_yet
          (λ q i p f. sjf.pushes q (i, p.burst_remaining) f)
          (λ q. sjf_picked-IsShortest q ((make Sjf.cmp).top q) (sjf.pops q)) in
      let some_fewer : fewer p.burst_remaining (srtf.entries waiting)
          ≡ count_if (λ j. ltb (left j) p.burst_remaining) js =
        omega (
          arith,
          add_all-count srtf.entries (Srtf.add make) ps adds (make Srtf.cmp).empty js
              (λ e. ltb e.1 p.burst_remaining),
          ap (fewer p.burst_remaining) srtf.none_yet,
        ) in
      (
        same,
        order,
        sjf_same,
        sjf_order,
        preempts (srtf.entries waiting) (srtf.entries ((make Srtf.cmp).pop waiting))
              ((make Srtf.cmp).top waiting) p.burst_remaining (srtf.pops waiting)
            ∙ ap (ltb 0) some_fewer,
      )
