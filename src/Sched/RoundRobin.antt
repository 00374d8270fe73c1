-- ===== src/Sched/RoundRobin.antt =====
-- memlab/include/memlab/sched/policies/rr.hpp. The queue is a list, the front first.
pub mod Turns
mod Tests
use memory_allocator.Base.{ℕ, leb, Bool, Option, none, some, List, [], ◌∷◌, ◌++◌}

pub record RoundRobin : Type 0 where
  pub queue : List ℕ
  pub quantum : ℕ

unfoldable pub construct : ℕ → RoundRobin
construct quantum = record { queue = []; quantum = quantum }

unfoldable pub add : RoundRobin → ℕ → RoundRobin
add s p = record s { queue = s.queue ++ p ∷ [] }

abbrev pub pop : ℕ → List ℕ → Option ℕ × RoundRobin
pop quantum [] = (none, record { queue = []; quantum = quantum })
pop quantum (p ∷ rest) = (some p, record { queue = rest; quantum = quantum })

unfoldable pub pick_next : RoundRobin → Option ℕ × RoundRobin
pick_next s = pop s.quantum s.queue

unfoldable pub should_preempt : RoundRobin → ℕ → ℕ → Bool
should_preempt s running ran_ticks = leb s.quantum ran_ticks
