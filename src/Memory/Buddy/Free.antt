-- ===== src/Memory/Buddy/Free.antt =====
-- What FreeInternal does with the free lists.
use memory_allocator.Base.{
  ℕ, zero, suc, ◌+◌, ◌≤◌, ◌<◌, ◌≡◌, sym, List, [], ◌∷◌, All, leb, ◌==◌, true, false, Bool-cases,
  inl, inr, dec_lt, subst, arith,
}
use memory_allocator.Memory.FreeList.Segments.{remove, member}
use memory_allocator.Memory.Buddy.Weights.{Weight, Splits, total_weight-put, list_weight-remove}
use memory_allocator.Memory.Buddy.Geometry.{IsBlock, coalesces}
use memory_allocator.Memory.Buddy.Allocate.{
  IsValid, free_weight, push_node-IsValid, push_node-weight, put_lists-IsValid,
}
use memory_allocator.Memory.Buddy.{
  BuddyAllocator, put, push_node, buddy_of, merge_of, free_internal,
}

remove-All {κ} : (P : ℕ → Type κ) (t : ℕ) (xs : List ℕ) → All P xs → All P (remove t xs)
remove-All P t [] h = tt
remove-All P t (x ∷ xs) h = elim (Bool-cases (x == t)) [
  | inl e ↦ rw e h.1
  | inr e ↦ rw e (h.0, remove-All P t xs h.1)
]

leb_of_le : (a b : ℕ) → a ≤ b → leb a b ≡ true
leb_of_le a b h = ground arith

leb_of_lt : (a b : ℕ) → b < a → leb a b ≡ false
leb_of_lt a b h = ground arith

module _ (m max base : ℕ) where
  -- The block is back: the lists are valid and weigh as much more as the block does.
  pub record Freed (order x : ℕ) (b b' : BuddyAllocator) : Type 1 where
    pub valid : IsValid m max base b'
    pub weight : (w : Weight) → Splits m w → free_weight w max b' ≡ free_weight w max b + w order x

  push_node-Freed :
      (b : BuddyAllocator) (order x : ℕ)
      → order ≤ max
      → IsValid m max base b
      → IsBlock m max base order x
      → Freed order x b (push_node order x b)
  push_node-Freed b order x l i blk = record {
    valid = push_node-IsValid m max base b order x l i blk;
    weight = λ w s. push_node-weight m max base w b order x l;
  }

  -- The parent of a block and its buddy, over the base of the storage.
  coalesces_of :
      (b : BuddyAllocator) (k x : ℕ)
      → IsValid m max base b
      → k < max
      → IsBlock m max base k x
      → IsBlock m max base (suc k) (merge_of b x k)
        × ((w : Weight) → Splits m w → w (suc k) (merge_of b x k) ≡ w k x + w k (buddy_of b x k))
  coalesces_of b k x i l blk =
      let c =
        coalesces m max b i.shape k x l (subst (λ a. IsBlock m max a k x) (sym i.start) blk) in
      (subst (λ a. IsBlock m max a (suc k) (merge_of b x k)) i.start c.parent, c.weight)

  -- Taking the buddy out and freeing the parent frees the block.
  coalesce-Freed :
      (b b' : BuddyAllocator) (k x : ℕ)
      → k < max
      → IsValid m max base b
      → IsBlock m max base k x
      → member (buddy_of b x k) (b.free_lists k) ≡ true
      → Freed
          (suc k)
          (merge_of b x k)
          (record b { free_lists = put b.free_lists k (remove (buddy_of b x k) (b.free_lists k)) })
          b'
      → Freed k x b b'
  coalesce-Freed b b' k x l i blk there f = record {
    valid = f.valid;
    weight = λ w s. omega (
      arith,
      f.weight w s,
      (coalesces_of b k x i l blk).1 w s,
      list_weight-remove w k (buddy_of b x k) (b.free_lists k) there,
      total_weight-put w (suc max) k b.free_lists (remove (buddy_of b x k) (b.free_lists k))
          (omega arith),
    );
  }

  pub free_internal-Freed :
      (fuel order x : ℕ) (b : BuddyAllocator)
      → max < fuel + order
      → order ≤ max
      → IsValid m max base b
      → IsBlock m max base order x
      → Freed order x b (free_internal fuel x order b)
  unfolding free_internal
  free_internal-Freed zero order x b h l i blk = absurd (omega arith)
  free_internal-Freed (suc fuel) order x b h l i blk = elim (dec_lt order max) [
    | yes below ↦ elim (Bool-cases (member (buddy_of b x order) (b.free_lists order))) [
      | inl there ↦
          rw (leb_of_lt b.max_order order (omega (arith, i.shape.top)), there)
            (coalesce-Freed b _ order x below i blk there (
              free_internal-Freed fuel (suc order) (merge_of b x order)
                (record b {
                  free_lists =
                      put b.free_lists order (remove (buddy_of b x order) (b.free_lists order));
                })
                (omega arith) (omega arith)
                (put_lists-IsValid m max base b order
                  (remove (buddy_of b x order) (b.free_lists order)) i
                  (remove-All (IsBlock m max base order) (buddy_of b x order) (b.free_lists order)
                    (i.blocks order l)))
                (coalesces_of b order x i below blk).0))
      | inr gone ↦
          rw (leb_of_lt b.max_order order (omega (arith, i.shape.top)), gone)
            (push_node-Freed b order x l i blk)
    ]
    | no top ↦
        let same : b.max_order ≡ order = omega (arith, i.shape.top) in
        rw (leb_of_le b.max_order order (omega arith)) (
          subst (λ k. Freed order x b (push_node k x b)) (sym same)
            (push_node-Freed b order x l i blk))
  ]
