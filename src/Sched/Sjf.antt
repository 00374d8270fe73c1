-- ===== src/Sched/Sjf.antt =====
-- memlab/include/memlab/sched/policies/sjf.hpp. The state is the queue, which std::priority_queue
-- makes of the comparison, and whose `top_and_pop` is `top` and `pop`.
use memory_allocator.Base.{ℕ, ltb, Bool, false, Option, none, some}
use memory_allocator.Sched.Process.{Process}
use memory_allocator.Sched.PriorityQueue.{Entry, Comparison, PriorityQueue}

-- `Cmp`: whether `b` comes before `a`.
unfoldable pub cmp : Comparison
cmp a b = ltb b.1 a.1

module _ {Q : Type 0} (make : Comparison → PriorityQueue Q) where
  abbrev pub queue : PriorityQueue Q
  queue = make cmp

  unfoldable pub add : Q → ℕ → Process → Q
  add q i p = queue.push q (i, p.burst_remaining)

  abbrev pub picked : Q → Option Entry → Option ℕ × Q
  picked q none = (none, q)
  picked q (some (i, ticks)) = (some i, queue.pop q)

  unfoldable pub pick_next : Q → Option ℕ × Q
  pick_next q = picked q (queue.top q)

  unfoldable pub should_preempt : Q → ℕ → Process → ℕ → Bool
  should_preempt q running p ran_ticks = false
