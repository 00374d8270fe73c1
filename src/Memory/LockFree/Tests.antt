-- ===== src/Memory/LockFree/Tests.antt =====
-- Two threads on a lock-free list.
use memory_allocator.Base.{ℕ, ◌≡◌, refl, true, false, none, List, All, arith}
use memory_allocator.Memory.FreeList.Segments.{Chain, Distinct}
use memory_allocator.Memory.LockFree.{
  TaggedPointer, same, construct, store_next, exchange, pushing, stored, popping, linked, act,
}
use memory_allocator.Memory.LockFree.Threads.{System, push, pop, acts, Reach, start, further}
use memory_allocator.Memory.LockFree.Exclusive.{pop_takes_free_node, list_stays_intact}

abbrev zeros : ℕ → ℕ
zeros a = 0

abbrev first_thread : ℕ → ℕ
first_thread a = 1

abbrev at : ℕ → ℕ → TaggedPointer
at p t = record { ptr = p; tag = t }

abbrev Outcome : Type 0
Outcome = (s : System) × Reach zeros first_thread s

-- Thread 1 pushes node 64; thread 2 loads the head and reads the node's link.
abbrev read_by_second : Outcome
unfolding construct act store_next exchange same
read_by_second = (
  _,
  further
      (further
        (further
          (further (further start (push 1 64 refl (omega arith) refl))
            (acts 1 true (pushing 64 (at 0 0)) refl tt))
          (acts 1 true (stored 64 (at 0 0)) refl refl))
        (pop 2 refl))
      (acts 2 true (popping (at 64 1)) refl tt),
)

-- Meanwhile thread 1 pops the node and pushes it again.
abbrev recycled : Outcome
unfolding construct act store_next exchange same
recycled = (
  _,
  further
      (further
        (further
          (further
            (further (further read_by_second.1 (pop 1 refl))
              (acts 1 true (popping (at 64 1)) refl tt))
            (acts 1 true (linked (at 64 1) 0) refl refl))
          (push 1 64 refl (omega arith) refl))
        (acts 1 true (pushing 64 (at 0 2)) refl tt))
      (acts 1 true (stored 64 (at 0 2)) refl refl),
)

-- The node is the one that thread 2 loaded, and the tag tells that it went round.
aba_detected :
    (recycled.0.list.head.ptr ≡ 64)
    × (recycled.0.thread 2 ≡ linked (at 64 1) 0)
    × (same recycled.0.list.head (at 64 1) ≡ false)
unfolding recycled read_by_second construct act store_next exchange same
aba_detected = (refl, refl, refl)

pop_takes_free_node_example :
    (read_by_second.0.owner 64 ≡ none) × (0 ≡ read_by_second.0.list.next 64)
unfolding read_by_second construct act store_next exchange same
pop_takes_free_node_example =
    pop_takes_free_node 2 {old = at 64 1} read_by_second.1 (omega arith) refl refl

list_stays_intact_example :
    (free : List ℕ) × Chain recycled.0.list.next recycled.0.list.head.ptr free
    × Distinct free
    × All (λ a. recycled.0.owner a ≡ none) free
unfolding recycled read_by_second construct act store_next exchange same
list_stays_intact_example = list_stays_intact recycled.1 (omega arith)
