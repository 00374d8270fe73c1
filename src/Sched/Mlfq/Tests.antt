-- ===== src/Sched/Mlfq/Tests.antt =====
-- The multi-level feedback queue on small inputs.
use memory_allocator.Base.{ℕ, ◌*◌, ◌%◌, ◌^◌, ◌<◌, ◌≡◌, refl, true, some, [], ◌∷◌, contains, arith}
use memory_allocator.Sched.Mlfq.{
  Mlfq, queue_count, construct, add, pick_from, pick_next, on_quantum_expired, tick, quantum_for,
}
use memory_allocator.Sched.Mlfq.Levels.{
  Idle, arrives, picks, expires, Reach, start, next, mlfq_levels,
}
use memory_allocator.Sched.Mlfq.Boost.{tick-boosts}

abbrev arrived : Mlfq
arrived = add (add (construct 4 100) 1) 2

abbrev running : Mlfq
running = (pick_next arrived).1

-- Process 1 has used its quantum up.
abbrev demoted : Mlfq
demoted = on_quantum_expired running 1

first_come : (pick_next arrived).0 ≡ some 1
unfolding pick_next pick_from add construct
first_come = refl

longer_quantum : quantum_for demoted 1 ≡ 8
unfolding quantum_for on_quantum_expired pick_next pick_from add construct
longer_quantum = refl

Idle-empty : (p : ℕ) → Idle (construct 4 100) p
unfolding Idle construct
Idle-empty p q = refl

Idle-second : Idle (add (construct 4 100) 1) 2
unfolding Idle construct add
Idle-second q = ground arith

Idle-running : Idle running 1
unfolding Idle construct add pick_next pick_from
Idle-running q = ground arith

history : Reach 4 100 demoted
history =
    next (next (next (next start (arrives 1 (Idle-empty 1))) (arrives 2 Idle-second)) picks)
      (expires 1 Idle-running)

mlfq_levels_example :
    ((p : ℕ) → demoted.level p < queue_count)
    × ((q p : ℕ)
        → contains (demoted.queues q) p ≡ true
        → (demoted.level p ≡ q) × (quantum_for demoted p ≡ (4 * 2 ^ q) % 2 ^ 32))
mlfq_levels_example = mlfq_levels history

tick-boosts_example :
    ((tick demoted 200).queues 0 ≡ 2 ∷ 1 ∷ [])
    × ((tick demoted 200).queues 1 ≡ [])
    × ((tick demoted 200).queues 2 ≡ [])
unfolding on_quantum_expired pick_next pick_from add construct
tick-boosts_example = tick-boosts demoted 200 (ground arith) refl
