-- ===== src/Memory/FreeList.antt =====
-- The intrusive lists that the pool, the slabs and the buddy allocator keep in free memory: the
-- first word of a free block is the address of the next. A heap gives the word at each address.
pub mod Segments
mod Tests
use memory_allocator.Base.{ℕ, zero, suc, ◌+◌, ◌==◌, if◌then◌else◌, Bool, true, false, List, [], ◌∷◌}
use memory_allocator.Base.Bits.{add64}

abbrev pub Heap : Type 0
Heap = ℕ → ℕ

-- `a->next = v`
abbrev pub update : Heap → ℕ → ℕ → Heap
update h a v x = if x == a then v else h x

-- The loop that links `n` further nodes, each `slot_size` bytes after the one before it, and ends
-- the list.
unfoldable pub link_nodes : ℕ → ℕ → ℕ → Heap → Heap
link_nodes zero slot_size current h = update h current 0
link_nodes (suc n) slot_size current h =
    let next = add64 current slot_size in link_nodes n slot_size next (update h current next)

-- `RemoveNodeIfPresent` of include/BuddyAllocator.hpp, which walks the list by the link `curr`
-- that leads to each node: `head` is the head of the list, `next_of` the `next` word of a node. The
-- fuel bounds the nodes.
pub data Link : Type 0 where
  head : Link
  next_of : ℕ → Link

-- A list in a heap, by its head.
pub record FreeList : Type 0 where
  pub first : ℕ
  pub heap : Heap

abbrev pub read : FreeList → Link → ℕ
read l head = l.first
read l (next_of a) = l.heap a

abbrev pub write : FreeList → Link → ℕ → FreeList
write l head v = record l { first = v }
write l (next_of a) v = record l { heap = update l.heap a v }

unfoldable pub push_node : FreeList → ℕ → FreeList
push_node l node = record { first = node; heap = update l.heap node l.first }

-- Only called on a list that is not empty.
unfoldable pub pop_node : FreeList → ℕ × FreeList
pop_node l = (l.first, record l { first = l.heap l.first })

unfoldable pub remove_from : ℕ → Link → ℕ → FreeList → Bool × FreeList
remove_from zero curr target l = (false, l)
remove_from (suc fuel) curr target l =
    let node = read l curr in
    let rest = remove_from fuel (next_of node) target l in
    if node == 0
    then (false, l)
    else if node == target
    then (true, write l curr (l.heap node))
    else rest

unfoldable pub remove_node_if_present : ℕ → ℕ → FreeList → Bool × FreeList
unfolding remove_from
remove_node_if_present fuel target l = remove_from fuel head target l
