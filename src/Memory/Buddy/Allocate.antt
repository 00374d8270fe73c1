-- ===== src/Memory/Buddy/Allocate.antt =====
-- What AllocateInternal does with the free lists.
use memory_allocator.Base.{
  ℕ, zero, suc, ◌+◌, ◌^◌, ◌≤◌, ◌<◌, ◌≡◌, sym, ap, Option, none, some, List, [], ◌∷◌, All, lt→ltb,
  ge→ltb, ==_self, ne→==, List-cases, inl, inr, dec_lt, ℕ_discrete, subst, arith,
}
use memory_allocator.Base.Bits.{add64}
use memory_allocator.Memory.Buddy.Weights.{
  Weight, Splits, list_weight, total_weight, total_weight-put,
}
use memory_allocator.Memory.Buddy.Geometry.{HasShape, IsBlock, halves}
use memory_allocator.Memory.Buddy.{
  BuddyAllocator, put, push_node, pop_node, block_size, split_block, allocate_internal,
}

-- The allocator has its shape, and every free list holds blocks of its order.
pub record IsValid (m max base : ℕ) (b : BuddyAllocator) : Type 0 where
  pub shape : HasShape m max b
  pub start : b.storage.ptr ≡ base
  pub blocks : (k : ℕ) → k ≤ max → All (IsBlock m max base k) (b.free_lists k)

-- The weight of all free blocks.
abbrev pub free_weight : Weight → ℕ → BuddyAllocator → ℕ
free_weight w max b = total_weight w (suc max) b.free_lists

module _ (m max base : ℕ) where
  abbrev pub Valid : BuddyAllocator → Type 0
  Valid = IsValid m max base

  pub put_lists-IsValid :
      (b : BuddyAllocator) (k : ℕ) (v : List ℕ)
      → Valid b
      → All (IsBlock m max base k) v
      → Valid (record b { free_lists = put b.free_lists k v })
  put_lists-IsValid b k v i h = record {
    shape = record {
      unit = i.shape.unit;
      top = i.shape.top;
      small = i.shape.small;
      aligned = i.shape.aligned;
      mapped = i.shape.mapped;
      nonnull = i.shape.nonnull;
    };
    start = i.start;
    blocks = λ j l. put_blocks j l (ℕ_discrete j k);
  }
    where
      put_blocks :
          (j : ℕ) → j ≤ max → Dec (j ≡ k) → All (IsBlock m max base j) (put b.free_lists k v j)
      put_blocks j l (yes e) =
          subst (λ n. All (IsBlock m max base n) (put b.free_lists k v n)) (sym e)
            (rw (==_self k) h)
      put_blocks j l (no e) = rw (ne→== j k e) (i.blocks j l)

  pub push_node-IsValid :
      (b : BuddyAllocator) (k x : ℕ)
      → k ≤ max
      → Valid b
      → IsBlock m max base k x
      → Valid (push_node k x b)
  unfolding push_node
  push_node-IsValid b k x l i h = put_lists-IsValid b k (x ∷ b.free_lists k) i (h, i.blocks k l)

  pub push_node-weight :
      (w : Weight) (b : BuddyAllocator) (k x : ℕ)
      → k ≤ max
      → free_weight w max (push_node k x b) ≡ free_weight w max b + w k x
  unfolding push_node
  push_node-weight w b k x l =
      omega (arith, total_weight-put w (suc max) k b.free_lists (x ∷ b.free_lists k) (omega arith))

  -- The answer of an allocation of the given order: a refusal changes nothing and means that all
  -- lists from that order up are empty; a grant is a block of that order, and the blocks left
  -- weigh that much less, under every weight that splits.
  pub data Allocated (order : ℕ) (b : BuddyAllocator) : Option ℕ × BuddyAllocator → Type 1 where
    refused : ((k : ℕ) → order ≤ k → k ≤ max → b.free_lists k ≡ []) → Allocated order b (none, b)
    granted :
        {x : ℕ} {b' : BuddyAllocator}
        → Valid b'
        → IsBlock m max base order x
        → ((w : Weight) → Splits m w → free_weight w max b' + w order x ≡ free_weight w max b)
        → Allocated order b (some x, b')

  pop-Allocated :
      (order x : ℕ) (rest : List ℕ) (b : BuddyAllocator)
      → order ≤ max
      → Valid b
      → b.free_lists order ≡ x ∷ rest
      → Allocated order b (some x, pop_node order rest b)
  unfolding pop_node
  pop-Allocated order x rest b l i e =
      let blocks : All (IsBlock m max base order) (x ∷ rest) = rw e at (i.blocks order l) in
      granted (put_lists-IsValid b order rest i blocks.1) blocks.0 λ w s. omega (
        arith,
        total_weight-put w (suc max) order b.free_lists rest (omega arith),
        ap (list_weight w order) e,
      )

  halves_of :
      (b : BuddyAllocator) (k x : ℕ)
      → Valid b
      → IsBlock m max base (suc k) x
      → IsBlock m max base k x
        × IsBlock m max base k (x + 2 ^ (m + k))
        × (add64 x (block_size b k) ≡ x + 2 ^ (m + k))
  halves_of b k x i blk =
      subst
        (λ a.
          IsBlock m max a k x
          × IsBlock m max a k (x + 2 ^ (m + k))
          × (add64 x (block_size b k) ≡ x + 2 ^ (m + k)))
        i.start
        (halves m max b i.shape k x (subst (λ a. IsBlock m max a (suc k) x) (sym i.start) blk))

  split-Allocated :
      (order : ℕ) (b : BuddyAllocator) {r : Option ℕ × BuddyAllocator}
      → order ≤ max
      → b.free_lists order ≡ []
      → Allocated (suc order) b r
      → Allocated order b (split_block order r.0 r.1)
  unfolding split_block
  split-Allocated order b l e (refused h) = refused λ k p q. elim (dec_lt order k) [
    | yes above ↦ h k above q
    | no here ↦ let same : k ≡ order = omega arith in rw same e
  ]
  split-Allocated order b l e (granted {x} {b'} i blk wt) =
      let (low, high, address) = halves_of b' order x i blk in
      rw address (
        granted (push_node-IsValid b' order (x + 2 ^ (m + order)) l i high) low λ w s.
          omega (arith, push_node-weight w b' order (x + 2 ^ (m + order)) l, s order x, wt w s))

  -- With fuel for the orders left.
  pub allocate_internal-Allocated :
      (fuel order : ℕ) (b : BuddyAllocator)
      → max < fuel + order
      → Valid b
      → Allocated order b (allocate_internal fuel order b)
  unfolding allocate_internal
  allocate_internal-Allocated zero order b h i = refused λ k p q. absurd (omega arith)
  allocate_internal-Allocated (suc fuel) order b h i = elim (dec_lt max order) [
    | yes over ↦
        rw (lt→ltb b.max_order order (omega (arith, i.shape.top)))
          (refused λ k p q. absurd (omega arith))
    | no l ↦ elim (List-cases (b.free_lists order)) [
      | inl e ↦
          rw (ge→ltb b.max_order order (omega (arith, i.shape.top)), e)
            (split-Allocated order b (omega arith) e
              (allocate_internal-Allocated fuel (suc order) b (omega arith) i))
      | inr (x, rest, e) ↦
          rw (ge→ltb b.max_order order (omega (arith, i.shape.top)), e)
            (pop-Allocated order x rest b (omega arith) i e)
    ]
  ]
