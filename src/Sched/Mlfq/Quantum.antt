-- ===== src/Sched/Mlfq/Quantum.antt =====
-- The first quantum of the multi-level feedback queue, which no call changes.
use memory_allocator.Base.{
  ℕ, zero, suc, ◌≡◌, refl, ◌∙◌, if◌then◌else◌, Bool, true, false, Option, some, List, [], ◌∷◌,
}
use memory_allocator.Sched.Mlfq.{Mlfq, update, push_back, set_level, pick_from, raise, boost_queue}

raise-base : (ps : List ℕ) (m : Mlfq) → (raise ps m).quantum_base ≡ m.quantum_base
unfolding raise
raise-base [] m = refl
raise-base (p ∷ ps) m = raise-base ps (push_back (set_level m p 0) 0 p)

pub boost-base :
    (m : Mlfq) (b : Bool)
    → (if b then m else boost_queue (boost_queue m 1) 2).quantum_base ≡ m.quantum_base
boost-base m true = refl
boost-base m false =
    let first = boost_queue m 1 in raise-base (first.queues 2) first ∙ raise-base (m.queues 1) m

pub pick_from-base : (left q : ℕ) (m : Mlfq) → (pick_from left q m).1.quantum_base ≡ m.quantum_base
unfolding pick_from
pick_from-base zero q m = refl
pick_from-base (suc left) q m = looked (m.queues q) (pick_from-base left (suc q) m)
  where
    looked :
        (l : List ℕ)
        → (pick_from left (suc q) m).1.quantum_base ≡ m.quantum_base
        → (elim l as (λ _. Option ℕ × Mlfq) [
          | [] ↦ pick_from left (suc q) m
          | p ∷ ps ↦ (some p, record m { queues = update m.queues q ps })
        ]).1.quantum_base
          ≡ m.quantum_base
    looked [] h = h
    looked (p ∷ ps) h = refl
