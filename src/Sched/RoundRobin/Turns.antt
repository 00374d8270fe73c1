-- ===== src/Sched/RoundRobin/Turns.antt =====
-- Round robin serves in the order of arrival, and each process waits for its turn.
use memory_allocator.Base.{
  ℕ, ◌≡◌, refl, sym, ap, ◌∙◌, Option, none, some, List, [], ◌∷◌, ◌++◌, append_assoc, append-nil,
}
use memory_allocator.Sched.Policy.{Scheduler, pick_front, IsInOrder}
use memory_allocator.Sched.Policy.Order.{Call, arrivals, run, run-order}
use memory_allocator.Sched.RoundRobin.{RoundRobin, construct, add, pop, pick_next, should_preempt}

abbrev pub round_robin : Scheduler RoundRobin
round_robin = record { add = add; pick_next = pick_next; should_preempt = should_preempt }

pop-front :
    (q : ℕ) (l : List ℕ) → ((pop q l).0 ≡ (pick_front l).0) × ((pop q l).1.queue ≡ (pick_front l).1)
pop-front q [] = (refl, refl)
pop-front q (p ∷ l) = (refl, refl)

abbrev round_robin-IsInOrder : IsInOrder round_robin
unfolding add pick_next
round_robin-IsInOrder = record {
  waiting = λ s. s.queue;
  adds_behind = λ s p. refl;
  picks_front = λ s. pop-front s.quantum s.queue;
}

-- A turn: the process in front runs for its quantum and is preempted, which puts it behind the
-- others.
unfoldable pub turn : RoundRobin → Option ℕ × RoundRobin
turn s = let (p, t) = pick_next s in (p, elim p [ none ↦ t | some q ↦ add t q ])

unfoldable pub turns : List ℕ → RoundRobin → List ℕ × RoundRobin
unfolding turn
turns [] s = ([], s)
turns (x ∷ xs) s =
    let (p, t) = turn s in let (ps, u) = turns xs t in (elim p [ none ↦ ps | some q ↦ q ∷ ps ], u)

turns-rotate :
    (xs ys : List ℕ) (quantum : ℕ)
    → turns xs (record { queue = xs ++ ys; quantum = quantum })
      ≡ (xs, record { queue = ys ++ xs; quantum = quantum })
unfolding turns turn pick_next add
turns-rotate [] ys quantum =
    ap (λ l. ([], record { queue = l; quantum = quantum })) (sym (append-nil ys))
turns-rotate (x ∷ xs) ys quantum =
    let behind = append_assoc xs ys (x ∷ []) in
    let front = append_assoc ys (x ∷ []) xs in
    ap (λ r. (x ∷ r.0, r.1))
      (ap (λ l. turns xs (record { queue = l; quantum = quantum })) behind
        ∙ turns-rotate xs (ys ++ x ∷ []) quantum
        ∙ ap (λ l. (xs, record { queue = l; quantum = quantum })) front)

-- In as many turns as processes wait, each of them runs once, in order, and they wait as before.
pub round_of_turns : (s : RoundRobin) → turns s.queue s ≡ (s.queue, s)
round_of_turns s =
    ap (λ l. turns s.queue (record { queue = l; quantum = s.quantum })) (sym (append-nil s.queue))
    ∙ turns-rotate s.queue [] s.quantum

-- From the empty queue, whatever calls are made: the processes that the policy picked, followed by
-- those that still wait, are the arrivals in their order.
pub round_robin_in_order :
    (quantum : ℕ) (cs : List Call)
    → (run round_robin cs (construct quantum)).0 ++ (run round_robin cs (construct quantum)).1.queue
      ≡ arrivals cs
unfolding construct run round_robin-IsInOrder
round_robin_in_order quantum cs = run-order round_robin round_robin-IsInOrder cs (construct quantum)
