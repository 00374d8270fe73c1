-- ===== src/Sched/Priority.antt =====
-- memlab/include/memlab/sched/policies/priority.hpp. `std::push_heap` and `std::pop_heap` are an
-- interface. An entry is the index of a process and the process, of which the policy reads what
-- does not change. The aged priority `priority - bonus` is a signed number, below 2^31 in size, so
-- that two are compared by sums. A pid that `_aged` does not have has the bonus 0.
pub mod Ageing
use memory_allocator.Base.{
  ℕ, zero, suc, ◌+◌, ◌/◌, ltb, ◌==◌, if◌then◌else◌, Bool, false, Option, none, some, List, [], ◌∷◌,
  ◌++◌, length,
}
use memory_allocator.Sched.Process.{Process, sub32}

abbrev pub Entry : Type 0
Entry = ℕ × Process

-- What `push_heap` and `pop_heap` make of a range, for a comparison.
pub record Heaps : Type 0 where
  pub push_heap : (Entry → Entry → Bool) → List Entry → List Entry
  pub pop_heap : (Entry → Entry → Bool) → List Entry → List Entry

pub record PriorityScheduler : Type 0 where
  pub aged : ℕ → ℕ
  pub heap : List Entry

abbrev pub aging_interval : ℕ
aging_interval = 10

unfoldable pub construct : PriorityScheduler
construct = record { aged = λ pid. 0; heap = [] }

-- The comparison that `push` and `pop` give to the heap functions.
abbrev pub later : (ℕ → ℕ) → Entry → Entry → Bool
later aged (i, a) (j, b) = ltb (b.priority + aged a.pid) (a.priority + aged b.pid)

-- `front`, where there is an entry.
abbrev pub front : List Entry → Option Entry
front [] = none
front (e ∷ rest) = some e

abbrev pub drop_last : List Entry → List Entry
drop_last [] = []
drop_last (e ∷ []) = []
drop_last (e ∷ d ∷ rest) = e ∷ drop_last (d ∷ rest)

abbrev pub set_aged : PriorityScheduler → ℕ → ℕ → PriorityScheduler
set_aged s pid bonus = record s { aged = λ x. if x == pid then bonus else s.aged x }

module _ (heaps : Heaps) where
  unfoldable pub push : PriorityScheduler → Entry → PriorityScheduler
  push s e = record s { heap = heaps.push_heap (later s.aged) (s.heap ++ e ∷ []) }

  unfoldable pub pop : PriorityScheduler → PriorityScheduler
  pop s = record s { heap = drop_last (heaps.pop_heap (later s.aged) s.heap) }

  unfoldable pub add : PriorityScheduler → ℕ → Process → PriorityScheduler
  unfolding push
  add s i p = push s (i, p)

  abbrev pub picked : PriorityScheduler → Option Entry → Option ℕ × PriorityScheduler
  unfolding pop
  picked s none = (none, s)
  picked s (some (i, p)) = (some i, pop s)

  unfoldable pub pick_next : PriorityScheduler → Option ℕ × PriorityScheduler
  pick_next s = picked s (front s.heap)

  unfoldable pub should_preempt : PriorityScheduler → ℕ → Process → ℕ → Bool
  should_preempt s running p ran_ticks = false

  -- A round of the first loop of `age_ready_queue`, with what the later rounds make of the rest.
  abbrev pub drained :
      PriorityScheduler
      → Option Entry
      → List Entry × PriorityScheduler
      → List Entry × PriorityScheduler
  drained s none r = ([], s)
  drained s (some e) (rest, t) = (e ∷ rest, t)

  -- The loop, for at most `left` rounds: the entries in order.
  unfoldable pub drain : ℕ → PriorityScheduler → List Entry × PriorityScheduler
  unfolding pop
  drain zero s = ([], s)
  drain (suc left) s = drained s (front s.heap) (drain left (pop s))

  -- The second loop.
  unfoldable pub refill : ℕ → List Entry → PriorityScheduler → PriorityScheduler
  unfolding push
  refill current_tick [] s = s
  refill current_tick ((i, p) ∷ rest) s =
      let waited = sub32 current_tick p.arrival in
      refill current_tick rest (push (set_aged s p.pid (waited / aging_interval)) (i, p))

  -- A round of the first loop takes an entry away, so that their number is rounds enough.
  unfoldable pub age_ready_queue : PriorityScheduler → ℕ → PriorityScheduler
  unfolding drain refill
  age_ready_queue s current_tick =
      let (tmp, t) = drain (length s.heap) s in refill current_tick tmp t
