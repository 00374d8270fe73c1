-- ===== src/Memory/LockFree.antt =====
-- include/LockFreeFreelist.hpp and include/TaggedPointer.hpp. Threads share the head, a pointer
-- with a tag, and the `next` words of the nodes; null is 0. The tag has 64 bits, and
-- wraps around.
pub mod Threads
pub mod Rely
pub mod Exclusive
mod Tests
use memory_allocator.Base.Bits.{add64}
use memory_allocator.Base.{ℕ, ◌==◌, ◌&&◌, if◌then◌else◌, Bool, true, false}

pub record TaggedPointer : Type 0 where
  pub ptr : ℕ
  pub tag : ℕ

-- `operator==`
unfoldable pub same : TaggedPointer → TaggedPointer → Bool
same a b = a.ptr == b.ptr && a.tag == b.tag

pub record LockFreeFreelist : Type 0 where
  pub head : TaggedPointer
  pub next : ℕ → ℕ

unfoldable pub construct : (ℕ → ℕ) → LockFreeFreelist
construct next = record { head = record { ptr = 0; tag = 0 }; next = next }

-- `node->next.store(v)`
unfoldable pub store_next : LockFreeFreelist → ℕ → ℕ → LockFreeFreelist
store_next l node v = record l { next = λ a. if a == node then v else l.next a }

-- What `head_.compare_exchange_weak(oldHead, {ptr, oldHead.tag + 1})` does where it succeeds.
unfoldable pub exchange : LockFreeFreelist → TaggedPointer → ℕ → LockFreeFreelist
exchange l old ptr = record l { head = record { ptr = ptr; tag = add64 old.tag 1 } }

-- Where a thread stands in `Push` or `Pop`: between calls; with the head loaded and a node to
-- push; after the store to the node; with the head loaded for a pop; and with the link of its node
-- read.
pub data Thread : Type 0 where
  rest : Thread
  pushing : ℕ → TaggedPointer → Thread
  stored : ℕ → TaggedPointer → Thread
  popping : TaggedPointer → Thread
  linked : TaggedPointer → ℕ → Thread

-- The next atomic access of a thread, the answer of `compare_exchange_weak` given: the list, the
-- thread, and the node that a pop returns.
unfoldable pub act : Bool → LockFreeFreelist → Thread → LockFreeFreelist × Thread × ℕ
unfolding store_next exchange
act ok l rest = (l, rest, 0)
act ok l (pushing node old) = (store_next l node old.ptr, stored node old, 0)
act ok l (stored node old) =
    if ok then (exchange l old node, rest, 0) else (l, pushing node l.head, 0)
act ok l (popping old) = if old.ptr == 0 then (l, rest, 0) else (l, linked old (l.next old.ptr), 0)
act ok l (linked old n) = if ok then (exchange l old n, rest, old.ptr) else (l, popping l.head, 0)
