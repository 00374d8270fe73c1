-- ===== src/Sched/Fcfs/Tests.antt =====
-- FCFS on three arrivals.
use memory_allocator.Base.{◌≡◌, refl, List, [], ◌∷◌, ◌++◌}
use memory_allocator.Sched.Policy.Order.{Call, arrive, pick, run}
use memory_allocator.Sched.Fcfs.{empty, add, pick_next}
use memory_allocator.Sched.Fcfs.Arrivals.{fcfs, fcfs_in_order}

abbrev calls : List Call
calls = arrive 3 ∷ arrive 1 ∷ pick ∷ arrive 2 ∷ pick ∷ []

served : (run fcfs calls empty).0 ≡ 3 ∷ 1 ∷ []
unfolding run empty add pick_next
served = refl

fcfs_in_order_test : (run fcfs calls empty).0 ++ (run fcfs calls empty).1.queue ≡ 3 ∷ 1 ∷ 2 ∷ []
fcfs_in_order_test = fcfs_in_order calls
