-- ===== src/Sim/Scheduling/ShortestFirst.antt =====
-- SRTF and SJF as policies of the simulation, which hand out what they were given.
use memory_allocator.Base.{ℕ, ◌+◌, ◌≡◌, ◌==◌, Option, none, some, arith}
use memory_allocator.Sched.PriorityQueue.{
  Entry, Comparison, PriorityQueue, IsPriorityQueue, count_if, Popped,
}
use memory_allocator.Sched.Sjf
use memory_allocator.Sched.Srtf
use memory_allocator.Sim.Scheduling.{Policy}
use memory_allocator.Sim.Scheduling.Places.{released, IsKeeper}

module _ {Q : Type 0} (make : Comparison → PriorityQueue Q) where
  abbrev pub srtf : Policy Q
  srtf = record {
    add = Srtf.add make;
    pick_next = Srtf.pick_next make;
    should_preempt = Srtf.should_preempt make;
  }

  abbrev pub sjf : Policy Q
  sjf = record {
    add = Sjf.add make;
    pick_next = Sjf.pick_next make;
    should_preempt = Sjf.should_preempt make;
  }

  abbrev pub held : {cmp : Comparison} → IsPriorityQueue cmp (make cmp) → Q → ℕ → ℕ
  held laws q j = count_if (λ e. e.0 == j) (laws.entries q)

  module _ (laws : IsPriorityQueue Srtf.cmp (make Srtf.cmp)) where
    srtf_picks :
        (q : Q) (j : ℕ) (o : Option Entry)
        → Popped Srtf.cmp o (laws.entries q) (laws.entries ((make Srtf.cmp).pop q))
        → held laws q j ≡ held laws (Srtf.picked make q o).1 j + released (Srtf.picked make q o).0 j
    srtf_picks q j none e = omega arith
    srtf_picks q j (some (i, ticks)) (counts, least) = counts (λ e. e.0 == j)

    srtf-IsKeeper : IsKeeper srtf
    unfolding Srtf.add Srtf.pick_next
    srtf-IsKeeper = record {
      held = held laws;
      adds = λ q i p j. laws.pushes q (i, p.burst_remaining) (λ e. e.0 == j);
      picks = λ q j. srtf_picks q j ((make Srtf.cmp).top q) (laws.pops q);
    }

  module _ (laws : IsPriorityQueue Sjf.cmp (make Sjf.cmp)) where
    sjf_picks :
        (q : Q) (j : ℕ) (o : Option Entry)
        → Popped Sjf.cmp o (laws.entries q) (laws.entries ((make Sjf.cmp).pop q))
        → held laws q j ≡ held laws (Sjf.picked make q o).1 j + released (Sjf.picked make q o).0 j
    sjf_picks q j none e = omega arith
    sjf_picks q j (some (i, ticks)) (counts, least) = counts (λ e. e.0 == j)

    sjf-IsKeeper : IsKeeper sjf
    unfolding Sjf.add Sjf.pick_next
    sjf-IsKeeper = record {
      held = held laws;
      adds = λ q i p j. laws.pushes q (i, p.burst_remaining) (λ e. e.0 == j);
      picks = λ q j. sjf_picks q j ((make Sjf.cmp).top q) (laws.pops q);
    }
