-- ===== src/Memory/Slab/Tests.antt =====
-- The slab cache on small inputs.
use memory_allocator.Base.{ℕ, ◌<◌, ◌≡◌, refl, some, none, length, arith}
use memory_allocator.Memory.VirtualMemory.{VirtualMemory}
use memory_allocator.Memory.FreeList.{Heap}
use memory_allocator.Memory.FreeList.Segments.{nodes, Represents}
use memory_allocator.Memory.Slab.{
  Slab, SlabCache, construct, construct_slab, allocate_from_slab, free, allocate,
}
use memory_allocator.Memory.Slab.Links.{
  list_of, clear_word, new_slab-Represents, cleared_slab_breaks,
}
use memory_allocator.Memory.Slab.Magazine.{allocate-free}

abbrev zeros : Heap
zeros a = 0

abbrev page : VirtualMemory
page = record { ptr = 4096; size = 4096 }

abbrev keep : ℕ → Heap → Heap
keep a h = h

abbrev cache : SlabCache
cache = construct 16 16 64 16 zeros

new_slab-Represents_test :
    let (s, k) = construct_slab keep 64 16 page zeros in
    Represents (list_of s k) (nodes 63 16 4096) × (s.free_slots ≡ length (nodes 63 16 4096))
new_slab-Represents_test =
    new_slab-Represents keep 63 16 page zeros (λ a h x. refl) (omega arith) (omega arith)
      (omega arith) (omega arith)

cleared_slab_breaks_example :
    let (s, k) = construct_slab clear_word 64 16 page zeros in
    (t : Slab) × (allocate_from_slab k s ≡ some (4096, t))
    × (t.free_slots ≡ 63)
    × (allocate_from_slab k t ≡ none)
cleared_slab_breaks_example = cleared_slab_breaks 63 16 page zeros (omega arith) (omega arith)

room : length (cache.magazine 0) < cache.magazine_size
unfolding construct
room = omega arith

allocate-free_test : allocate keep page (free cache 0 4112) 0 ≡ some (4112, cache)
allocate-free_test = allocate-free keep page cache 0 4112 (omega arith) room
