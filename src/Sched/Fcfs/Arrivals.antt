-- ===== src/Sched/Fcfs/Arrivals.antt =====
-- FCFS serves in the order of arrival.
use memory_allocator.Base.{ℕ, ◌≡◌, refl, List, [], ◌∷◌, ◌++◌}
use memory_allocator.Sched.Policy.{Scheduler, pick_front, IsInOrder}
use memory_allocator.Sched.Policy.Order.{Call, arrivals, run, run-order}
use memory_allocator.Sched.Fcfs.{Fcfs, empty, add, pop, pick_next, should_preempt}

abbrev pub fcfs : Scheduler Fcfs
fcfs = record { add = add; pick_next = pick_next; should_preempt = should_preempt }

pub pop-front : (l : List ℕ) → ((pop l).0 ≡ (pick_front l).0) × ((pop l).1.queue ≡ (pick_front l).1)
pop-front [] = (refl, refl)
pop-front (p ∷ l) = (refl, refl)

unfoldable pub fcfs-IsInOrder : IsInOrder fcfs
unfolding add pick_next
fcfs-IsInOrder = record {
  waiting = λ s. s.queue;
  adds_behind = λ s p. refl;
  picks_front = λ s. pop-front s.queue;
}

-- From the empty queue, whatever calls are made: the processes that FCFS picked, followed by those
-- that still wait, are the arrivals in their order.
pub fcfs_in_order :
    (cs : List Call) → (run fcfs cs empty).0 ++ (run fcfs cs empty).1.queue ≡ arrivals cs
unfolding empty run fcfs-IsInOrder
fcfs_in_order cs = run-order fcfs fcfs-IsInOrder cs empty
