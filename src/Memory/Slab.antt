-- ===== src/Memory/Slab.antt =====
-- include/SlabCache.hpp. The constructor of `T` is an argument, `construct_t`: what it does to the
-- words at the slots. The thread-local magazines are lists by thread, the back first, and the
-- storage that the OS gives a new slab is an argument. `none` stands for the read through a null
-- pointer in AllocateFromSlab, which the source leaves undefined.
pub mod Links
pub mod Magazine
mod Tests
use memory_allocator.Base.{
  ℕ, zero, suc, ltb, leb, ◌==◌, if◌then◌else◌, ◌&&◌, Bool, Option, none, some, List, [], ◌∷◌, ◌++◌,
  length,
}
use memory_allocator.Base.Bits.{add64, sub64}
use memory_allocator.Memory.Utils.{align_up}
use memory_allocator.Memory.VirtualMemory.{VirtualMemory, get_ptr, get_size}
use memory_allocator.Memory.FreeList.{Heap, update, link_nodes}

pub record Slab : Type 0 where
  pub storage : VirtualMemory
  pub free_list : ℕ
  pub free_slots : ℕ
  pub total_slots : ℕ

pub record SlabCache : Type 0 where
  pub objects_per_slab : ℕ
  pub magazine_size : ℕ
  pub slot_size : ℕ
  pub slabs : List Slab
  pub heap : Heap
  pub magazine : ℕ → List ℕ

-- `sizeof(T)` and `alignof(T)` are arguments; a `Node*` takes 8 bytes.
unfoldable pub construct : ℕ → ℕ → ℕ → ℕ → Heap → SlabCache
construct sizeof_t alignof_t objects_per_slab magazine_size h = record {
  objects_per_slab = objects_per_slab;
  magazine_size = magazine_size;
  slot_size = align_up (if ltb 8 sizeof_t then sizeof_t else 8) alignof_t;
  slabs = [];
  heap = h;
  magazine = λ thread. [];
}

unfoldable pub contains : Slab → ℕ → Bool
unfolding get_ptr get_size
contains slab ptr =
    let start = get_ptr slab.storage in
    leb start ptr && ltb ptr (add64 start (get_size slab.storage))

unfoldable pub allocate_from_slab : Heap → Slab → Option (ℕ × Slab)
allocate_from_slab h slab =
    if slab.free_list == 0
    then none
    else some (
      slab.free_list,
      record slab { free_list = h slab.free_list; free_slots = sub64 slab.free_slots 1 },
    )

-- What the search for a free slot comes to: no slab has one, the read is undefined, or a slot and
-- the slabs that are left.
pub data Found : Type 0 where
  all_full : Found
  undefined : Found
  slot : ℕ → List Slab → Found

abbrev pub behind : Slab → Found → Found
behind s all_full = all_full
behind s undefined = undefined
behind s (slot p rest) = slot p (s ∷ rest)

abbrev pub taken : Option (ℕ × Slab) → List Slab → Found
taken none rest = undefined
taken (some (p, s)) rest = slot p (s ∷ rest)

-- The loop of `Allocate` over the slabs.
unfoldable pub take_slot : Heap → List Slab → Found
unfolding allocate_from_slab
take_slot h [] = all_full
take_slot h (s ∷ rest) =
    let later = take_slot h rest in
    if ltb 0 s.free_slots then taken (allocate_from_slab h s) rest else behind s later

abbrev pub set_magazine : SlabCache → ℕ → List ℕ → SlabCache
set_magazine c thread l = record c { magazine = λ t. if t == thread then l else c.magazine t }

-- The loop of `Free` over the slabs: the slabs and the heap.
unfoldable pub give_slot : ℕ → Heap → List Slab → List Slab × Heap
unfolding contains
give_slot ptr h [] = ([], h)
give_slot ptr h (s ∷ rest) =
    let (later, k) = give_slot ptr h rest in
    if contains s ptr
    then (
      record s { free_list = ptr; free_slots = add64 s.free_slots 1 } ∷ rest,
      update h ptr s.free_list,
    )
    else (s ∷ later, k)

unfoldable pub free : SlabCache → ℕ → ℕ → SlabCache
unfolding give_slot
free c thread ptr =
    if ptr == 0
    then c
    else if ltb (length (c.magazine thread)) c.magazine_size
    then set_magazine c thread (ptr ∷ c.magazine thread)
    else let (slabs, h) = give_slot ptr c.heap c.slabs in record c { slabs = slabs; heap = h }

module _ (construct_t : ℕ → Heap → Heap) where
  -- The loop that constructs `n` objects from `ptr` on.
  unfoldable pub construct_objects : ℕ → ℕ → ℕ → Heap → Heap
  construct_objects zero slot_size ptr h = h
  construct_objects (suc n) slot_size ptr h =
      construct_objects n slot_size (add64 ptr slot_size) (construct_t ptr h)

  -- The constructor of a slab; its first loop makes `count - 1` rounds, on `size_t`.
  unfoldable pub construct_slab : ℕ → ℕ → VirtualMemory → Heap → Slab × Heap
  unfolding construct_objects get_ptr
  construct_slab count slot_size storage h =
      let mem = get_ptr storage in
      (
        record { storage = storage; free_list = mem; free_slots = count; total_slots = count },
        construct_objects count slot_size mem (link_nodes (sub64 count 1) slot_size mem h),
      )

  abbrev pub with_slab : SlabCache → Heap → Option (ℕ × Slab) → Option (ℕ × SlabCache)
  with_slab c h none = none
  with_slab c h (some (p, s)) = some (p, record c { slabs = c.slabs ++ s ∷ []; heap = h })

  unfoldable pub from_slabs : VirtualMemory → SlabCache → Found → Option (ℕ × SlabCache)
  unfolding construct_slab allocate_from_slab
  from_slabs storage c all_full =
      let (s, h) = construct_slab c.objects_per_slab c.slot_size storage c.heap in
      with_slab c h (allocate_from_slab h s)
  from_slabs storage c undefined = none
  from_slabs storage c (slot p slabs) = some (p, record c { slabs = slabs })

  unfoldable pub from_magazine : VirtualMemory → SlabCache → ℕ → List ℕ → Option (ℕ × SlabCache)
  unfolding from_slabs take_slot
  from_magazine storage c thread [] = from_slabs storage c (take_slot c.heap c.slabs)
  from_magazine storage c thread (p ∷ rest) = some (p, set_magazine c thread rest)

  unfoldable pub allocate : VirtualMemory → SlabCache → ℕ → Option (ℕ × SlabCache)
  unfolding from_magazine
  allocate storage c thread = from_magazine storage c thread (c.magazine thread)
