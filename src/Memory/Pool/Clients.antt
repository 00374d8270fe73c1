-- ===== src/Memory/Pool/Clients.antt =====
-- The pool under any client that frees only what it holds.
use memory_allocator.Base.{
  ℕ, zero, suc, ◌+◌, ◌*◌, ◌%◌, ltb, ltb→lt, ltb→ge, ◌^◌, ◌≤◌, ◌<◌, ◌≡◌, refl, ap, sym, subst, ◌↔◌,
  length-append, ne→==, ==_self, ◌==◌, if◌then◌else◌, ==→eq, Option, none, some, List, [], ◌∷◌,
  ◌++◌, length, arith, Bool-cases, inl, inr,
}
use memory_allocator.Base.Count.{count, count-append}
use memory_allocator.Base.Bits.{sub64}
use memory_allocator.Memory.VirtualMemory.{VirtualMemory}
use memory_allocator.Memory.FreeList.{Heap, pop_node}
use memory_allocator.Memory.FreeList.Segments.{
  Fresh, Distinct, Represents, nodes, nodes-Fresh, nodes-Distinct, link_nodes-Chain,
  push_node-Represents, pop_node-Represents,
}
use memory_allocator.Memory.Pool.{PoolAllocator, slot_size, construct, allocate, free}
use memory_allocator.Memory.Utils.Bounds.{align_up-RoundsUp}

-- A pool, and the slots that its client holds. A client frees a slot that it holds, or null.
pub data Step (p : PoolAllocator) (held : List ℕ) : PoolAllocator → List ℕ → Type 0 where
  take : {x : ℕ} {p' : PoolAllocator} → allocate p ≡ (some x, p') → Step p held p' (x ∷ held)
  refuse : {p' : PoolAllocator} → allocate p ≡ (none, p') → Step p held p' held
  give :
      (x : ℕ) (ys zs : List ℕ) {rest : List ℕ} {p' : PoolAllocator}
      → held ≡ ys ++ x ∷ zs
      → rest ≡ ys ++ zs
      → free p x ≡ p'
      → Step p held p' rest
  give_null : {p' : PoolAllocator} → free p 0 ≡ p' → Step p held p' held

pub data Reach (p : PoolAllocator) : PoolAllocator → List ℕ → Type 0 where
  here : Reach p p []
  next :
      {q q' : PoolAllocator} {held held' : List ℕ}
      → Reach p q held
      → Step q held q' held'
      → Reach p q' held'

count-Fresh : (a : ℕ) (xs : List ℕ) → count a xs ≡ 0 → Fresh a xs
count-Fresh a [] h = tt
count-Fresh a (x ∷ xs) h = elim (Bool-cases (x == a)) [
  | inl e ↦ absurd (ground arith)
  | inr e ↦ (ground arith, count-Fresh a xs (ground arith))
]

Fresh-count : (a : ℕ) (xs : List ℕ) → Fresh a xs → count a xs ≡ 0
Fresh-count a [] f = refl
Fresh-count a (x ∷ xs) f = rw (ne→== x a f.0) (omega (arith, Fresh-count a xs f.1))

Distinct-count : (a : ℕ) (xs : List ℕ) → Distinct xs → count a xs ≤ 1
Distinct-count a [] d = omega arith
Distinct-count a (x ∷ xs) d = elim (Bool-cases (x == a)) [
  | inl e ↦ rw e (omega (arith, Fresh-count a xs (subst (λ y. Fresh y xs) (==→eq x a e) d.0)))
  | inr e ↦ rw e (omega (arith, Distinct-count a xs d.1))
]

-- The free slots and the held ones together are the pool's slots, each once.
pub record Conserves (slots held : List ℕ) (p : PoolAllocator) (xs : List ℕ) : Type 0 where
  pub stands : Represents p.free_list xs
  pub all_there : (a : ℕ) → count a xs + count a held ≡ count a slots
  pub total : length xs + length held ≡ length slots

-- What the client holds after an answer of `Allocate`.
abbrev pub grab : Option ℕ → List ℕ → List ℕ
grab none held = held
grab (some x) held = x ∷ held

module _ (slots : List ℕ) (once : (a : ℕ) → count a slots ≤ 1) (valid : count 0 slots ≡ 0) where
  abbrev Good : PoolAllocator → List ℕ → Type 0
  Good p held = (xs : List ℕ) × Conserves slots held p xs

  allocate-cons :
      (p : PoolAllocator) (held rest : List ℕ) (x : ℕ)
      → Conserves slots held p (x ∷ rest)
      → (allocate p ≡ (some x, record p { free_list = (pop_node p.free_list).1 }))
        × Conserves slots (x ∷ held) (record p { free_list = (pop_node p.free_list).1 }) rest
  unfolding allocate
  allocate-cons p held rest x c =
      let (same, popped) = pop_node-Represents p.free_list x rest c.stands in
      (
        rw (ne→== p.free_list.first 0 (rw c.stands.chain.0 c.stands.chain.1), same),
        record {
          stands = popped;
          all_there = λ a. omega (arith, c.all_there a);
          total = omega (arith, c.total);
        },
      )

  allocate-nil :
      (p : PoolAllocator) (held : List ℕ) → Conserves slots held p [] → allocate p ≡ (none, p)
  unfolding allocate
  allocate-nil p held c = ground (arith, c.stands.chain)

  allocate-Good :
      (p : PoolAllocator) (held xs : List ℕ)
      → Conserves slots held p xs
      → Good (allocate p).1 (grab (allocate p).0 held)
  allocate-Good p held [] c = rw (allocate-nil p held c) ([], c)
  allocate-Good p held (x ∷ rest) c = let (e, c') = allocate-cons p held rest x c in rw e (rest, c')

  free-Good :
      (p : PoolAllocator) (x : ℕ) (ys zs xs : List ℕ)
      → Conserves slots (ys ++ x ∷ zs) p xs
      → Good (free p x) (ys ++ zs)
  unfolding free
  free-Good p x ys zs xs c = rw (ne→== x 0 (λ z. absurd (there_zero z))) (
    x ∷ xs,
    record {
      stands =
          push_node-Represents p.free_list x xs (λ z. there_zero z)
            (count-Fresh x xs (omega (arith, c.all_there x, once x, there))) c.stands;
      all_there =
          λ a. omega (arith, c.all_there a, count-append a ys (x ∷ zs), count-append a ys zs);
      total = omega (arith, c.total, length-append ys (x ∷ zs), length-append ys zs);
    },
  )
    where
      there : 1 ≤ count x (ys ++ x ∷ zs)
      there =
          omega
            (arith, count-append x ys (x ∷ zs), ap {B = ℕ} (λ b. if b then 1 else 0) (==_self x))

      there_zero : x ≡ 0 → ⊥
      there_zero z =
          omega (arith, subst (λ y. count y slots ≡ 0) (sym z) valid, c.all_there x, there)

  Step-Good :
      {p p' : PoolAllocator} {held held' : List ℕ}
      → Step p held p' held'
      → Good p held
      → Good p' held'
  unfolding free
  Step-Good {p} {held = held} (take e) (xs, c) =
      subst (λ r. Good r.1 (grab r.0 held)) e (allocate-Good p held xs c)
  Step-Good {p} {held = held} (refuse e) (xs, c) =
      subst (λ r. Good r.1 (grab r.0 held)) e (allocate-Good p held xs c)
  Step-Good {p} (give x ys zs h r f) (xs, c) = rw (← f, r) (free-Good p x ys zs xs (rw h at c))
  Step-Good (give_null e) (xs, c) = rw (← e) (xs, c)

  reach-Good : {p q : PoolAllocator} {held : List ℕ} → Reach p q held → Good p [] → Good q held
  reach-Good here g = g
  reach-Good (next r st) g = Step-Good st (reach-Good r g)

  -- The pool refuses exactly when its client holds every slot.
  refuses_iff_full :
      (p : PoolAllocator) (held xs : List ℕ)
      → Conserves slots held p xs
      → ((allocate p).0 ≡ none) ↔ (length held ≡ length slots)
  refuses_iff_full p held [] c = (λ _. omega (arith, c.total), λ _. rw (allocate-nil p held c))
  refuses_iff_full p held (x ∷ rest) c =
      (λ e. cc (allocate-cons p held rest x c).0, λ e. absurd (omega (arith, c.total)))

length-nodes : (n slot current : ℕ) → length (nodes n slot current) ≡ suc n
length-nodes zero slot current = refl
length-nodes (suc n) slot current = ap suc (length-nodes n slot (current + slot))

module _ (n slot : ℕ) (storage : VirtualMemory) (h : Heap) where
  construct-Good :
      0 < storage.ptr
      → 0 < slot
      → storage.ptr + n * slot < 2 ^ 64
      → suc n < 2 ^ 64
      → Conserves
          (nodes n slot storage.ptr)
          []
          (construct (suc n) slot storage h)
          (nodes n slot storage.ptr)
  unfolding construct
  construct-Good p s b l = record {
    stands = record {
      chain = rw rounds (link_nodes-Chain n slot storage.ptr h p s b);
      distinct = nodes-Distinct n slot storage.ptr s;
    };
    all_there = λ a. omega arith;
    total = omega arith;
  }
    where
      rounds : sub64 (suc n) 1 ≡ n
      rounds = omega arith

  -- A pool of `n + 1` slots in mapped storage, used by a client that frees only null and what it
  -- holds: at every moment the client holds each slot at most once and nothing but slots, and
  -- `Allocate` returns null exactly when the client holds all of the slots.
  pub slots_held_once :
      {p : PoolAllocator} {held : List ℕ}
      → 0 < storage.ptr
      → 0 < slot
      → storage.ptr + n * slot < 2 ^ 64
      → suc n < 2 ^ 64
      → Reach (construct (suc n) slot storage h) p held
      → ((a : ℕ) → count a held ≤ count a (nodes n slot storage.ptr))
        × ((a : ℕ) → count a held ≤ 1)
        × (((allocate p).0 ≡ none) ↔ (length held ≡ suc n))
  slots_held_once {p} {held} pos s b l r =
      let slots = nodes n slot storage.ptr in
      let once : (a : ℕ) → count a slots ≤ 1 =
        λ a. Distinct-count a slots (nodes-Distinct n slot storage.ptr s) in
      let nonzero = Fresh-count 0 slots (nodes-Fresh n slot storage.ptr 0 pos) in
      let (xs, c) = reach-Good slots once nonzero r (slots, construct-Good pos s b l) in
      (
        λ a. omega (arith, c.all_there a),
        λ a. omega (arith, c.all_there a, once a),
        rw (← length-nodes n slot storage.ptr) (refuses_iff_full slots once nonzero p held xs c),
      )

-- Each slot of the pool is large enough for an object and for a link, and a multiple of the
-- alignment, which is a power of two below 2^64.
pub slot_size_lem :
    (sizeof_t k : ℕ)
    → k < 64
    → sizeof_t + 8 + 2 ^ k ≤ 2 ^ 64
    → (sizeof_t ≤ slot_size sizeof_t (2 ^ k))
      × (8 ≤ slot_size sizeof_t (2 ^ k))
      × (slot_size sizeof_t (2 ^ k) % 2 ^ k ≡ 0)
unfolding slot_size
slot_size_lem sizeof_t k l h = elim (Bool-cases (ltb 8 sizeof_t)) [
  | inl e ↦
      let r = align_up-RoundsUp sizeof_t k l (omega arith) in
      rw e (omega (arith, r.above), omega (arith, r.above, ltb→lt 8 sizeof_t e), r.aligned)
  | inr e ↦
      let r = align_up-RoundsUp 8 k l (omega arith) in
      rw e (omega (arith, r.above, ltb→ge 8 sizeof_t e), omega (arith, r.above), r.aligned)
]
