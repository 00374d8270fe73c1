-- ===== src/Memory/Slab/Magazine.antt =====
-- The magazine of a thread, in front of the slabs.
use memory_allocator.Base.{
  ℕ, ◌<◌, ◌≡◌, refl, sym, ap, ◌∙◌, ltb, ◌==◌, ==→eq, ==_self, if◌then◌else◌, true, false,
  Bool-cases, inl, inr, some, List, ◌∷◌, length, arith, fun_ext,
}
use memory_allocator.Memory.VirtualMemory.{VirtualMemory}
use memory_allocator.Memory.FreeList.{Heap}
use memory_allocator.Memory.Slab.{SlabCache, set_magazine, free, allocate, from_magazine}

magazine_self :
    (c : SlabCache) (thread : ℕ) (l : List ℕ) → (set_magazine c thread l).magazine thread ≡ l
magazine_self c thread l = ap (λ b. if b then l else c.magazine thread) (==_self thread)

set_magazine-back :
    (c : SlabCache) (thread : ℕ) (l : List ℕ)
    → set_magazine (set_magazine c thread l) thread (c.magazine thread) ≡ c
set_magazine-back c thread l = ap (λ m. record c { magazine = m }) (fun_ext λ t. at t)
  where
    inner : ℕ → List ℕ
    inner = (set_magazine c thread l).magazine

    at : (t : ℕ) → (if t == thread then c.magazine thread else inner t) ≡ c.magazine t
    at t = elim (Bool-cases (t == thread)) [
      | inl same ↦
          ap (λ b. if b then c.magazine thread else inner t) same
          ∙ ap c.magazine (sym (==→eq t thread same))
      | inr other ↦
          ap (λ b. if b then c.magazine thread else inner t) other
          ∙ ap (λ b. if b then l else c.magazine t) other
    ]

-- While a thread's magazine has room: what the thread frees, it gets back by its next allocation,
-- whatever storage the OS would give, and the cache is as it was before.
pub allocate-free :
    (construct_t : ℕ → Heap → Heap) (storage : VirtualMemory) (c : SlabCache) (thread ptr : ℕ)
    → 0 < ptr
    → length (c.magazine thread) < c.magazine_size
    → allocate construct_t storage (free c thread ptr) thread ≡ some (ptr, c)
unfolding free allocate from_magazine
allocate-free construct_t storage c thread ptr p room =
    let real : (ptr == 0) ≡ false = ground (arith, p) in
    let has_room : ltb (length (c.magazine thread)) c.magazine_size ≡ true = ground (arith, room) in
    let kept : free c thread ptr ≡ set_magazine c thread (ptr ∷ c.magazine thread) =
      rw (real, has_room) refl in
    ap (λ d. allocate construct_t storage d thread) kept
    ∙ ap
        (from_magazine construct_t storage (set_magazine c thread (ptr ∷ c.magazine thread)) thread)
        (magazine_self c thread (ptr ∷ c.magazine thread))
    ∙ ap (λ d. some (ptr, d)) (set_magazine-back c thread (ptr ∷ c.magazine thread))
