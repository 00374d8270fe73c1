-- ===== src/Memory/Buddy.antt =====
-- include/BuddyAllocator.hpp. A free list is the list of its addresses, the head first, for the
-- intrusive links that Memory/FreeList models, where a block has the eight bytes of a link; `freeLists_` is a function of the order. The
-- values of `std::log2` and `std::ceil` are an argument, `Logs`. The mutex makes each call one
-- step.
pub mod Geometry
pub mod Weights
pub mod Allocate
pub mod Free
pub mod Clients
pub mod Orders
pub mod SearchLogs
pub mod Ownership
mod Tests
use memory_allocator.Base.{
  ℕ, zero, suc, ◌/◌, ltb, leb, ◌==◌, if◌then◌else◌, bit_and, bit_xor, Option, none, some, List, [],
  ◌∷◌,
}
use memory_allocator.Base.Bits.{add64, sub64, shl64, not64}
use memory_allocator.Memory.VirtualMemory.{VirtualMemory, get_ptr, get_size}
use memory_allocator.Memory.FreeList.Segments.{remove, member}

-- `(size_t)std::log2(n)` of an integer, and `(size_t)std::ceil(std::log2((double)size / min))`.
pub record Logs : Type 0 where
  pub floor_log2 : ℕ → ℕ
  pub ceil_log2_ratio : ℕ → ℕ → ℕ

pub record BuddyAllocator : Type 0 where
  pub storage : VirtualMemory
  pub min_block_size : ℕ
  pub max_order : ℕ
  pub free_lists : ℕ → List ℕ

-- `freeLists_[k] = v`
abbrev pub put : (ℕ → List ℕ) → ℕ → List ℕ → ℕ → List ℕ
put f k v j = if j == k then v else f j

-- The link is in the first eight bytes of the block, which has to have as many (IsPlaced).
pub push_node : ℕ → ℕ → BuddyAllocator → BuddyAllocator
push_node order ptr b = record b { free_lists = put b.free_lists order (ptr ∷ b.free_lists order) }

-- Only called where the list is not empty.
pub pop_node : ℕ → List ℕ → BuddyAllocator → BuddyAllocator
pop_node order rest b = record b { free_lists = put b.free_lists order rest }

pub block_size : BuddyAllocator → ℕ → ℕ
block_size b order = shl64 b.min_block_size order

-- What becomes of the larger block: the upper half goes to the free list.
pub split_block : ℕ → Option ℕ → BuddyAllocator → Option ℕ × BuddyAllocator
unfolding push_node block_size
split_block order none b = (none, b)
split_block order (some block) b =
    (some block, push_node order (add64 block (block_size b order)) b)

pub allocate_internal : ℕ → ℕ → BuddyAllocator → Option ℕ × BuddyAllocator
unfolding split_block pop_node
allocate_internal zero order b = (none, b)
allocate_internal (suc fuel) order b =
    let larger = allocate_internal fuel (suc order) b in
    if ltb b.max_order order then (none, b) else elim (b.free_lists order) [
      | [] ↦ split_block order larger.0 larger.1
      | block ∷ rest ↦ (some block, pop_node order rest b)
    ]

pub buddy_of : BuddyAllocator → ℕ → ℕ → ℕ
unfolding get_ptr block_size
buddy_of b ptr order =
    let base = get_ptr b.storage in
    let offset = sub64 ptr base in
    let buddy_offset = bit_xor offset (block_size b order) in add64 base buddy_offset

-- `ptr & ~blockSize`, of the address and not of the offset.
pub merge_of : BuddyAllocator → ℕ → ℕ → ℕ
unfolding block_size
merge_of b ptr order = bit_and ptr (not64 (block_size b order))

pub free_internal : ℕ → ℕ → ℕ → BuddyAllocator → BuddyAllocator
unfolding push_node buddy_of merge_of
free_internal zero ptr order b = b
free_internal (suc fuel) ptr order b =
    let buddy = buddy_of b ptr order in
    let without = record b {
      free_lists = put b.free_lists order (remove buddy (b.free_lists order));
    } in
    let coalesced = free_internal fuel (merge_of b ptr order) (suc order) without in
    if leb b.max_order order
    then push_node b.max_order ptr b
    else if member buddy (b.free_lists order)
    then coalesced
    else push_node order ptr b

module _ (logs : Logs) where
  pub construct : VirtualMemory → ℕ → ℕ → BuddyAllocator
  unfolding push_node get_ptr
  construct storage total_size min_block_size =
      let max_order = logs.floor_log2 (total_size / min_block_size) in
      push_node max_order (get_ptr storage) (record {
        storage = storage;
        min_block_size = min_block_size;
        max_order = max_order;
        free_lists = λ _. [];
      })

  pub get_order : BuddyAllocator → ℕ → ℕ
  get_order b size =
      if leb size b.min_block_size then 0 else logs.ceil_log2_ratio size b.min_block_size

  -- The recursion visits each order from the requested one up to `maxOrder_` once.
  pub allocate : BuddyAllocator → ℕ → Option ℕ × BuddyAllocator
  allocate b size =
      let order = get_order b size in
      if ltb b.max_order order then (none, b) else allocate_internal (suc b.max_order) order b

  pub free : BuddyAllocator → ℕ → ℕ → BuddyAllocator
  free b ptr size = if ptr == 0 then b else free_internal (suc b.max_order) ptr (get_order b size) b

  pub block_size_for_request : BuddyAllocator → ℕ → ℕ
  block_size_for_request b size = block_size b (get_order b size)

abbrev pub offset_of : BuddyAllocator → ℕ → ℕ
unfolding get_ptr
offset_of b ptr = sub64 ptr (get_ptr b.storage)

abbrev get_base_ptr : BuddyAllocator → ℕ
unfolding get_ptr
get_base_ptr b = get_ptr b.storage

abbrev get_total_size : BuddyAllocator → ℕ
unfolding get_size
get_total_size b = get_size b.storage
