-- ===== src/Sched/Mlfq.antt =====
-- memlab/include/memlab/sched/policies/mlfq.hpp. A process is its pid, which is all that the policy
-- reads of it. A pid that `_level` does not have is at level 0, so the map is a function.
pub mod Quantum
pub mod Levels
pub mod Boost
mod Tests
use memory_allocator.Base.{
  ℕ, zero, suc, ◌+◌, ◌-◌, ◌%◌, ◌*◌, ◌^◌, ◌==◌, ltb, leb, not, if◌then◌else◌, ◌||◌, Bool, Option,
  none, some, List, [], ◌∷◌, ◌++◌,
}

abbrev pub queue_count : ℕ
queue_count = 3

pub record Mlfq : Type 0 where
  pub quantum_base : ℕ
  pub boost_interval : ℕ
  pub queues : ℕ → List ℕ
  pub level : ℕ → ℕ

abbrev pub update {ℓ} : {A : Type ℓ} → (ℕ → A) → ℕ → A → ℕ → A
update f i v j = if i == j then v else f j

unfoldable pub construct : ℕ → ℕ → Mlfq
construct quantum_base boost_interval = record {
  quantum_base = quantum_base;
  boost_interval = boost_interval;
  queues = λ q. [];
  level = λ p. 0;
}

abbrev pub push_back : Mlfq → ℕ → ℕ → Mlfq
push_back m q p = record m { queues = update m.queues q (m.queues q ++ p ∷ []) }

abbrev pub set_level : Mlfq → ℕ → ℕ → Mlfq
set_level m p l = record m { level = update m.level p l }

unfoldable pub add : Mlfq → ℕ → Mlfq
add m p = push_back (set_level m p 0) 0 p

-- The loop over the queues, with `left` of them to look at from `q` on.
unfoldable pub pick_from : ℕ → ℕ → Mlfq → Option ℕ × Mlfq
pick_from zero q m = (none, m)
pick_from (suc left) q m =
    let rest = pick_from left (suc q) m in
    elim (m.queues q) [ [] ↦ rest | p ∷ ps ↦ (some p, record m { queues = update m.queues q ps }) ]

unfoldable pub pick_next : Mlfq → Option ℕ × Mlfq
unfolding pick_from
pick_next m = pick_from queue_count 0 m

-- A shift of 32 bits.
unfoldable pub quantum_for : Mlfq → ℕ → ℕ
quantum_for m p = (m.quantum_base * 2 ^ m.level p) % 2 ^ 32

unfoldable pub should_preempt : Mlfq → ℕ → ℕ → Bool
unfolding quantum_for
should_preempt m running ran_ticks = leb (quantum_for m running) ran_ticks

unfoldable pub on_quantum_expired : Mlfq → ℕ → Mlfq
on_quantum_expired m p =
    let l = if ltb (m.level p) (queue_count - 1) then suc (m.level p) else m.level p in
    push_back (set_level m p l) l p

unfoldable pub on_unblock : Mlfq → ℕ → Mlfq
on_unblock m p = push_back m (m.level p) p

-- The inner loop of `tick`, over the processes of one queue.
unfoldable pub raise : List ℕ → Mlfq → Mlfq
raise [] m = m
raise (p ∷ ps) m = raise ps (push_back (set_level m p 0) 0 p)

abbrev pub boost_queue : Mlfq → ℕ → Mlfq
boost_queue m q =
    let raised = raise (m.queues q) m in record raised { queues = update raised.queues q [] }

unfoldable pub tick : Mlfq → ℕ → Mlfq
unfolding raise
tick m current_tick =
    if not (current_tick % m.boost_interval == 0) || current_tick == 0
    then m
    else boost_queue (boost_queue m 1) 2
