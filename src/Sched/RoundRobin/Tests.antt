-- ===== src/Sched/RoundRobin/Tests.antt =====
-- Round robin on three processes.
use memory_allocator.Base.{◌≡◌, refl, true, List, [], ◌∷◌, ◌++◌}
use memory_allocator.Sched.Policy.Order.{Call, arrive, pick, run}
use memory_allocator.Sched.RoundRobin.{RoundRobin, construct, add, should_preempt}
use memory_allocator.Sched.RoundRobin.Turns.{
  round_robin, turns, round_of_turns, round_robin_in_order,
}

abbrev three : RoundRobin
three = add (add (add (construct 4) 1) 2) 3

abbrev calls : List Call
calls = arrive 1 ∷ arrive 2 ∷ pick ∷ arrive 1 ∷ pick ∷ []

quantum_used : should_preempt three 1 4 ≡ true
unfolding should_preempt add construct
quantum_used = refl

round_of_turns_test : turns (1 ∷ 2 ∷ 3 ∷ []) three ≡ (1 ∷ 2 ∷ 3 ∷ [], three)
unfolding add construct
round_of_turns_test = round_of_turns three

round_robin_in_order_test :
    (run round_robin calls (construct 4)).0 ++ (run round_robin calls (construct 4)).1.queue
    ≡ 1 ∷ 2 ∷ 1 ∷ []
round_robin_in_order_test = round_robin_in_order 4 calls
