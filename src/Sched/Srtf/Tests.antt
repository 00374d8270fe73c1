-- ===== src/Sched/Srtf/Tests.antt =====
-- SRTF and SJF over a list that is searched for the entry that comes first.
use memory_allocator.Base.{
  ℕ, ◌+◌, ◌≡◌, refl, ap, ltb, if◌then◌else◌, Bool, true, false, Bool-cases, inl, inr, Option, none,
  some, List, [], ◌∷◌, arith,
}
use memory_allocator.Sched.Process.{Process, new, never}
use memory_allocator.Sched.PriorityQueue.{
  Entry, Comparison, PriorityQueue, IsStrictWeak, Lawful, one_if, count_if, Popped,
}
use memory_allocator.Sched.PriorityQueue.Drain.{InOrder, add_all, picks}
use memory_allocator.Sched.Sjf
use memory_allocator.Sched.Srtf
use memory_allocator.Sched.Srtf.Shortest.{pick_next-InOrder}

-- The first of `e` and the entries behind it, and the others.
abbrev first : Comparison → Entry → List Entry → Entry × List Entry
first cmp e [] = (e, [])
first cmp e (d ∷ l) = let (m, rest) = first cmp d l in if cmp e m then (m, e ∷ rest) else (e, d ∷ l)

abbrev top : Comparison → List Entry → Option Entry
top cmp [] = none
top cmp (e ∷ l) = some (first cmp e l).0

abbrev pop : Comparison → List Entry → List Entry
pop cmp [] = []
pop cmp (e ∷ l) = (first cmp e l).1

abbrev searched : Comparison → PriorityQueue (List Entry)
searched cmp = record { empty = []; push = λ l e. e ∷ l; top = top cmp; pop = pop cmp }

module _ (cmp : Comparison) (order : IsStrictWeak cmp) where
  asymmetric : (a b : Entry) → cmp a b ≡ true → cmp b a ≡ false
  asymmetric a b h = elim (Bool-cases (cmp b a)) [
    | inl back ↦
        let around = order.transitive a b a h back in
        let own = order.irreflexive a in absurd (ground (arith, around, own))
    | inr e ↦ e
  ]

  count-weak :
      (a b : Entry) (l : List Entry)
      → cmp a b ≡ false
      → count_if (cmp b) l ≡ 0
      → count_if (cmp a) l ≡ 0
  count-weak a b [] h e = refl
  count-weak a b (x ∷ l) h e =
      let after : cmp b x ≡ false = ground (arith, e) in
      let before : one_if (cmp a x) ≡ 0 = ap one_if (order.weak a b x h after) in
      omega (arith, before, count-weak a b l h (omega (arith, e)))

  -- What the comparison with the first of the others gives.
  chosen :
      (b : Bool) (e d : Entry) (l : List Entry) (m : Entry) (rest : List Entry)
      → cmp e m ≡ b
      → ((f : Entry → Bool) → count_if f (d ∷ l) ≡ count_if f rest + one_if (f m))
      → count_if (cmp m) (d ∷ l) ≡ 0
      → let (x, others) : Entry × List Entry = if b then (m, e ∷ rest) else (e, d ∷ l) in
        Popped cmp (some x) (e ∷ d ∷ l) others
  chosen true e d l m rest less counts nothing =
      (λ f. omega (arith, counts f), omega (arith, nothing, ap one_if (asymmetric e m less)))
  chosen false e d l m rest not_less counts nothing = (
    λ f. omega arith,
    omega (arith, count-weak e m (d ∷ l) not_less nothing, ap one_if (order.irreflexive e)),
  )

  first-Popped :
      (e : Entry) (l : List Entry) → Popped cmp (some (first cmp e l).0) (e ∷ l) (first cmp e l).1
  first-Popped e [] = (λ f. omega arith, omega (arith, ap one_if (order.irreflexive e)))
  first-Popped e (d ∷ l) =
      let (m, rest) = first cmp d l in
      let (counts, nothing) = first-Popped d l in chosen (cmp e m) e d l m rest refl counts nothing

  pops : (l : List Entry) → Popped cmp (top cmp l) l (pop cmp l)
  pops [] = refl
  pops (e ∷ l) = first-Popped e l

searched-Lawful : Lawful searched
searched-Lawful cmp order = record {
  entries = λ l. l;
  none_yet = refl;
  pushes = λ l e f. omega arith;
  pops = pops cmp order;
}

abbrev two_waiting : List Entry
two_waiting = (1, 7) ∷ (2, 3) ∷ []

abbrev worker : Process
worker = record {
  pid = 3;
  arrival = 0;
  priority = 1;
  bursts = [];
  cur_burst = 0;
  burst_remaining = 5;
  state = new;
  first_run = never;
  finish = 0;
  wait_ticks = 0;
  io_ticks = 0;
  ctx_switches = 0;
}

-- Process `j` has `j` ticks left.
abbrev table : ℕ → Process
table j = record worker { burst_remaining = j }

shorter_first :
    (Srtf.pick_next searched two_waiting ≡ (some 2, (1, 7) ∷ []))
    × (Srtf.should_preempt searched two_waiting 0 worker 1 ≡ true)
unfolding Srtf.pick_next Srtf.should_preempt Srtf.cmp
shorter_first = (refl, refl)

abbrev waiting : List Entry
waiting = add_all (Srtf.add searched) table [] (7 ∷ 3 ∷ 5 ∷ [])

abbrev sjf_waiting : List Entry
sjf_waiting = add_all (Sjf.add searched) table [] (7 ∷ 3 ∷ 5 ∷ [])

three_runs : picks (Srtf.pick_next searched) 3 waiting ≡ 3 ∷ 5 ∷ 7 ∷ []
unfolding Srtf.pick_next Srtf.add Srtf.cmp
three_runs = refl

pick_next-InOrder_example :
    ((f : ℕ → Bool)
      → count_if f (picks (Srtf.pick_next searched) 3 waiting) ≡ count_if f (7 ∷ 3 ∷ 5 ∷ []))
    × InOrder (λ j. j) (picks (Srtf.pick_next searched) 3 waiting)
    × ((f : ℕ → Bool)
        → count_if f (picks (Sjf.pick_next searched) 3 sjf_waiting) ≡ count_if f (7 ∷ 3 ∷ 5 ∷ []))
    × InOrder (λ j. j) (picks (Sjf.pick_next searched) 3 sjf_waiting)
    × (Srtf.should_preempt searched waiting 0 worker 1
        ≡ ltb 0 (count_if (λ j. ltb j 5) (7 ∷ 3 ∷ 5 ∷ [])))
pick_next-InOrder_example =
    pick_next-InOrder searched searched-Lawful table (7 ∷ 3 ∷ 5 ∷ []) 0 worker 1
