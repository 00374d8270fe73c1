-- ===== src/Sched/Fcfs.antt =====
-- memlab/include/memlab/sched/policies/fcfs.hpp. The queue is a list, the front first.
pub mod Arrivals
mod Tests
use memory_allocator.Base.{ℕ, Bool, false, Option, none, some, List, [], ◌∷◌, ◌++◌}

pub record Fcfs : Type 0 where
  pub queue : List ℕ

unfoldable pub empty : Fcfs
empty = record { queue = [] }

unfoldable pub add : Fcfs → ℕ → Fcfs
add s p = record s { queue = s.queue ++ p ∷ [] }

abbrev pub pop : List ℕ → Option ℕ × Fcfs
pop [] = (none, record { queue = [] })
pop (p ∷ rest) = (some p, record { queue = rest })

unfoldable pub pick_next : Fcfs → Option ℕ × Fcfs
pick_next s = pop s.queue

unfoldable pub should_preempt : Fcfs → ℕ → ℕ → Bool
should_preempt s running ran_ticks = false
