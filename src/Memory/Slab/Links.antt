-- ===== src/Memory/Slab/Links.antt =====
-- The links of a new slab, which the constructor of `T` keeps or destroys.
use memory_allocator.Base.{
  ℕ, zero, suc, ◌+◌, ◌*◌, ◌^◌, ◌<◌, ◌≡◌, refl, sym, ap, ◌∙◌, ◌==◌, false, none, some, length, arith,
  fun_ext,
}
use memory_allocator.Base.Bits.{add64, sub64}
use memory_allocator.Memory.VirtualMemory.{VirtualMemory}
use memory_allocator.Memory.FreeList.{Heap, update, link_nodes, FreeList}
use memory_allocator.Memory.FreeList.Segments.{nodes, nodes-Distinct, link_nodes-Chain, Represents}
use memory_allocator.Memory.Slab.{Slab, construct_objects, construct_slab, allocate_from_slab}

-- A slab's free list in a heap.
abbrev pub list_of : Slab → Heap → FreeList
list_of s h = record { first = s.free_list; heap = h }

length-nodes : (n slot ptr : ℕ) → length (nodes n slot ptr) ≡ suc n
length-nodes zero slot ptr = refl
length-nodes (suc n) slot ptr = ap suc (length-nodes n slot (ptr + slot))

keep-links :
    (construct_t : ℕ → Heap → Heap)
    → ((a : ℕ) (h : Heap) (x : ℕ) → construct_t a h x ≡ h x)
    → (n slot ptr : ℕ) (h : Heap) → construct_objects construct_t n slot ptr h ≡ h
unfolding construct_objects
keep-links construct_t k zero slot ptr h = refl
keep-links construct_t k (suc n) slot ptr h =
    keep-links construct_t k n slot (add64 ptr slot) (construct_t ptr h) ∙ fun_ext λ x. k ptr h x

-- With a constructor of `T` that leaves the links alone: the free list of a new slab of `n + 1`
-- slots in mapped storage is all of its slots in order, and `freeSlots` is their number.
pub new_slab-Represents :
    (construct_t : ℕ → Heap → Heap) (n slot : ℕ) (storage : VirtualMemory) (h : Heap)
    → ((a : ℕ) (h : Heap) (x : ℕ) → construct_t a h x ≡ h x)
    → 0 < storage.ptr
    → 0 < slot
    → storage.ptr + n * slot < 2 ^ 64
    → suc n < 2 ^ 64
    → let (s, k) = construct_slab construct_t (suc n) slot storage h in
      Represents (list_of s k) (nodes n slot storage.ptr)
      × (s.free_slots ≡ length (nodes n slot storage.ptr))
unfolding construct_slab
new_slab-Represents construct_t n slot storage h k p z b w =
    let rounds : sub64 (suc n) 1 ≡ n = omega (arith, w) in
    let linked = link_nodes-Chain n slot storage.ptr h p z b in
    (
      record {
        chain =
            rw
              (
                rounds,
                keep-links construct_t k (suc n) slot storage.ptr (link_nodes n slot storage.ptr h),
              )
              linked;
        distinct = nodes-Distinct n slot storage.ptr z;
      },
      sym (length-nodes n slot storage.ptr),
    )

-- A constructor that clears the word at its object, as value initialisation of a number does.
unfoldable pub clear_word : ℕ → Heap → Heap
clear_word a h = update h a 0

cleared-first :
    (n slot ptr x : ℕ) (h : Heap) → h x ≡ 0 → construct_objects clear_word n slot ptr h x ≡ 0
unfolding construct_objects clear_word
cleared-first zero slot ptr x h e = e
cleared-first (suc n) slot ptr x h e =
    cleared-first n slot (add64 ptr slot) x (update h ptr 0) (ground (arith, e))

-- With a constructor of `T` that clears the first word of its object: whatever the slab's size, the
-- first allocation from a new slab leaves a free list that is empty, so that the next allocation
-- from it reads through a null pointer although `freeSlots` counts `n` slots.
pub cleared_slab_breaks :
    (n slot : ℕ) (storage : VirtualMemory) (h : Heap)
    → 0 < storage.ptr
    → suc n < 2 ^ 64
    → let (s, k) = construct_slab clear_word (suc n) slot storage h in
      (t : Slab) × (allocate_from_slab k s ≡ some (storage.ptr, t))
      × (t.free_slots ≡ n)
      × (allocate_from_slab k t ≡ none)
unfolding construct_slab allocate_from_slab construct_objects clear_word
cleared_slab_breaks n slot storage h p w =
    let rounds : sub64 (suc n) 1 ≡ n = omega (arith, w) in
    let k =
      construct_objects clear_word n slot (add64 storage.ptr slot)
        (update (link_nodes (sub64 (suc n) 1) slot storage.ptr h) storage.ptr 0) in
    let cleared : k storage.ptr ≡ 0 =
      cleared-first n slot (add64 storage.ptr slot) storage.ptr
        (update (link_nodes (sub64 (suc n) 1) slot storage.ptr h) storage.ptr 0) (ground arith) in
    let mapped : (storage.ptr == 0) ≡ false = ground (arith, p) in
    (
      record {
        storage = storage;
        free_list = k storage.ptr;
        free_slots = sub64 (suc n) 1;
        total_slots = suc n;
      },
      rw mapped refl,
      rounds,
      rw cleared refl,
    )
