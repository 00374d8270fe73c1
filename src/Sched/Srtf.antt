-- ===== src/Sched/Srtf.antt =====
-- memlab/include/memlab/sched/policies/srtf.hpp. The state is the queue, which std::priority_queue
-- makes of the comparison.
pub mod Shortest
mod Tests
use memory_allocator.Base.{ℕ, ltb, Bool, false, Option, none, some}
use memory_allocator.Sched.Process.{Process}
use memory_allocator.Sched.PriorityQueue.{Entry, Comparison, PriorityQueue}

-- `Cmp`: whether `b` comes before `a`.
unfoldable pub cmp : Comparison
cmp a b = ltb b.1 a.1

module _ {Q : Type 0} (make : Comparison → PriorityQueue Q) where
  abbrev pub queue : PriorityQueue Q
  queue = make cmp

  unfoldable pub add : Q → ℕ → Process → Q
  add q i p = queue.push q (i, p.burst_remaining)

  abbrev pub picked : Q → Option Entry → Option ℕ × Q
  picked q none = (none, q)
  picked q (some (i, ticks)) = (some i, queue.pop q)

  unfoldable pub pick_next : Q → Option ℕ × Q
  pick_next q = picked q (queue.top q)

  abbrev pub shorter : Option Entry → ℕ → Bool
  shorter none ticks = false
  shorter (some (i, waiting_ticks)) ticks = ltb waiting_ticks ticks

  unfoldable pub should_preempt : Q → ℕ → Process → ℕ → Bool
  should_preempt q running p ran_ticks = shorter (queue.top q) p.burst_remaining

  unfoldable pub on_unblock : Q → ℕ → Process → Q
  unfolding add
  on_unblock q i p = add q i p
