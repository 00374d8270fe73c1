-- ===== src/Sched/Mlfq/Boost.antt =====
-- The periodic boost of the multi-level feedback queue.
use memory_allocator.Base.{
  ℕ, suc, ◌%◌, ◌≡◌, ◌≢◌, refl, sym, ap₂, ◌∙◌, ◌==◌, not, ◌||◌, false, List, [], ◌∷◌, ◌++◌,
  append_assoc, append-nil, arith,
}
use memory_allocator.Sched.Mlfq.{Mlfq, push_back, set_level, raise, boost_queue, tick}

raise-queue :
    (l : List ℕ) (m : Mlfq)
    → ((raise l m).queues 0 ≡ m.queues 0 ++ l)
      × ((k : ℕ) → (raise l m).queues (suc k) ≡ m.queues (suc k))
unfolding raise
raise-queue [] m = (sym (append-nil (m.queues 0)), λ k. refl)
raise-queue (p ∷ l) m =
    let (front, others) = raise-queue l (push_back (set_level m p 0) 0 p) in
    (front ∙ append_assoc (m.queues 0) (p ∷ []) l, λ k. others k ∙ ground arith)

-- On a tick that the boost interval divides, but the first: the lower queues are emptied into the
-- first queue, behind what waited there and in the order of the queues.
pub tick-boosts :
    (m : Mlfq) (t : ℕ)
    → t ≢ 0
    → t % m.boost_interval ≡ 0
    → ((tick m t).queues 0 ≡ (m.queues 0 ++ m.queues 1) ++ m.queues 2)
      × ((tick m t).queues 1 ≡ [])
      × ((tick m t).queues 2 ≡ [])
unfolding tick
tick-boosts m t later due =
    let b : (not (t % m.boost_interval == 0) || t == 0) ≡ false = ground (arith, due, later) in
    let one = raise-queue (m.queues 1) m in
    let two = raise-queue ((boost_queue m 1).queues 2) (boost_queue m 1) in
    rw b (two.0 ∙ ap₂ (λ l r. l ++ r) one.0 (one.1 1), two.1 0, refl)
