-- ===== src/Memory/Buddy/Clients.antt =====
-- The buddy allocator under any client that frees only blocks that it holds, with a size of the
-- order that they were granted for.
use memory_allocator.Base.{
  ℕ, suc, ◌+◌, ◌%◌, ◌^◌, ◌≤◌, ◌<◌, ◌≡◌, Option, none, some, List, [], ◌∷◌, ◌++◌, All, ge→ltb,
  lt→ltb, ne→==, inl, inr, ◌⊎◌, dec_lt, subst, arith,
}
use memory_allocator.Memory.VirtualMemory.{VirtualMemory}
use memory_allocator.Memory.Buddy.Weights.{Weight, Splits}
use memory_allocator.Memory.Buddy.Geometry.{IsBlock, IsBlock-le}
use memory_allocator.Memory.Buddy.Allocate.{
  IsValid, free_weight, Allocated, refused, granted, allocate_internal-Allocated,
}
use memory_allocator.Memory.Buddy.Free.{free_internal-Freed}
use memory_allocator.Memory.Buddy.{Logs, BuddyAllocator, get_order, allocate, free}

-- What `std::log2` and `std::ceil` are documented to give: the exponent of a power of two, and,
-- for sizes up to 2^48, an exponent that is large enough and no larger than needed.
pub record LogLaws (logs : Logs) : Type 0 where
  pub floor_pow : (k : ℕ) → logs.floor_log2 (2 ^ k) ≡ k
  pub ceil_fits :
      (size m : ℕ)
      → size ≤ 2 ^ 48
      → 2 ^ m < size
      → size ≤ 2 ^ (m + logs.ceil_log2_ratio size (2 ^ m))
  pub ceil_least :
      (size m k : ℕ)
      → size ≤ 2 ^ 48
      → 2 ^ m < size
      → size ≤ 2 ^ (m + k)
      → logs.ceil_log2_ratio size (2 ^ m) ≤ k

-- Storage for `2 ^ max` blocks of `2 ^ m` bytes, at a multiple of its size, where the smallest block
-- holds the eight bytes of a free list's link.
pub record IsPlaced (m max : ℕ) (storage : VirtualMemory) : Type 0 where
  pub links : 3 ≤ m
  pub small : m + max < 64
  pub aligned : storage.ptr % 2 ^ (m + max) ≡ 0
  pub mapped : storage.ptr + 2 ^ (m + max) ≤ 2 ^ 64
  pub nonnull : 0 < storage.ptr

-- The blocks that a client holds: address and order.
abbrev pub held_weight : Weight → List (ℕ × ℕ) → ℕ
held_weight w [] = 0
held_weight w ((x, k) ∷ r) = w k x + held_weight w r

pub held_weight-append :
    (w : Weight) (xs ys : List (ℕ × ℕ))
    → held_weight w (xs ++ ys) ≡ held_weight w xs + held_weight w ys
held_weight-append w [] ys = omega arith
held_weight-append w ((x, k) ∷ xs) ys = omega (arith, held_weight-append w xs ys)

module _ (logs : Logs) where
  pub data Step (b : BuddyAllocator) (held : List (ℕ × ℕ))
      : BuddyAllocator → List (ℕ × ℕ) → Type 0 where
    take :
        (size : ℕ) {x : ℕ} {b' : BuddyAllocator}
        → allocate logs b size ≡ (some x, b')
        → Step b held b' ((x, get_order logs b size) ∷ held)
    refuse :
        (size : ℕ) {b' : BuddyAllocator} → allocate logs b size ≡ (none, b') → Step b held b' held
    give :
        (x size : ℕ) (ys zs : List (ℕ × ℕ)) {rest : List (ℕ × ℕ)} {b' : BuddyAllocator}
        → held ≡ ys ++ (x, get_order logs b size) ∷ zs
        → rest ≡ ys ++ zs
        → free logs b x size ≡ b'
        → Step b held b' rest
    give_null : (size : ℕ) {b' : BuddyAllocator} → free logs b 0 size ≡ b' → Step b held b' held

  pub data Reach (b : BuddyAllocator) : BuddyAllocator → List (ℕ × ℕ) → Type 0 where
    here : Reach b b []
    next :
        {c c' : BuddyAllocator} {held held' : List (ℕ × ℕ)}
        → Reach b c held
        → Step c held c' held'
        → Reach b c' held'

  module _ (m max base : ℕ) where
    abbrev pub IsHeld : ℕ × ℕ → Type 0
    IsHeld h = (h.1 ≤ max) × IsBlock m max base h.1 h.0

    -- Free blocks and held blocks together weigh what the storage does as one block.
    pub record Conserves (b : BuddyAllocator) (held : List (ℕ × ℕ)) : Type 1 where
      pub valid : IsValid m max base b
      pub blocks : All IsHeld held
      pub weight : (w : Weight) → Splits m w → free_weight w max b + held_weight w held ≡ w max base

    -- What the client holds after an answer.
    abbrev pub grab : Option ℕ → ℕ → List (ℕ × ℕ) → List (ℕ × ℕ)
    grab none k held = held
    grab (some x) k held = (x, k) ∷ held

    pub Allocated-Conserves :
        (b : BuddyAllocator) (order : ℕ) (held : List (ℕ × ℕ)) {r : Option ℕ × BuddyAllocator}
        → order ≤ max
        → Conserves b held
        → Allocated m max base order b r
        → Conserves r.1 (grab r.0 order held)
    Allocated-Conserves b order held l c (refused h) = c
    Allocated-Conserves b order held l c (granted i blk wt) = record {
      valid = i;
      blocks = ((l, blk), c.blocks);
      weight = λ w s. omega (arith, wt w s, c.weight w s);
    }

    -- `Allocate` answers as AllocateInternal does for the order of the size, or the order is
    -- larger than the storage.
    pub allocate-Allocated :
        (b : BuddyAllocator) (size : ℕ)
        → IsValid m max base b
        → ((max < get_order logs b size) × (allocate logs b size ≡ (none, b)))
          ⊎ ((get_order logs b size ≤ max)
              × Allocated m max base (get_order logs b size) b (allocate logs b size))
    unfolding allocate
    allocate-Allocated b size i = elim (dec_lt max (get_order logs b size)) [
      | yes over ↦
          inl (over, rw (lt→ltb b.max_order (get_order logs b size) (omega (arith, i.shape.top))))
      | no l ↦ inr (
        omega arith,
        rw (ge→ltb b.max_order (get_order logs b size) (omega (arith, i.shape.top))) (
            allocate_internal-Allocated m max base (suc b.max_order) (get_order logs b size) b
              (omega (arith, i.shape.top)) i),
      )
    ]

    pub allocate-Conserves :
        (b : BuddyAllocator) (size : ℕ) (held : List (ℕ × ℕ))
        → Conserves b held
        → Conserves
            (allocate logs b size).1
            (grab (allocate logs b size).0 (get_order logs b size) held)
    allocate-Conserves b size held c = elim (allocate-Allocated b size c.valid) [
      | inl (over, e) ↦ rw e c
      | inr (l, a) ↦ Allocated-Conserves b (get_order logs b size) held l c a
    ]

    pub All-middle :
        (ys : List (ℕ × ℕ)) (h : ℕ × ℕ) (zs : List (ℕ × ℕ))
        → All IsHeld (ys ++ h ∷ zs)
        → IsHeld h × All IsHeld (ys ++ zs)
    All-middle [] h zs a = a
    All-middle (y ∷ ys) h zs a = let (p, q) = All-middle ys h zs a.1 in (p, (a.0, q))

    pub free-Conserves :
        (b : BuddyAllocator) (x size : ℕ) (ys zs : List (ℕ × ℕ))
        → Conserves b (ys ++ (x, get_order logs b size) ∷ zs)
        → Conserves (free logs b x size) (ys ++ zs)
    unfolding free
    free-Conserves b x size ys zs c =
        let order = get_order logs b size in
        let (h, rest) = All-middle ys (x, order) zs c.blocks in
        let bounds = IsBlock-le m max base order x h.1 in
        let f =
          free_internal-Freed m max base (suc b.max_order) order x b
            (omega (arith, c.valid.shape.top)) h.0 c.valid h.1 in
        rw (ne→== x 0 (omega (arith, bounds.0, c.valid.start, c.valid.shape.nonnull))) (record {
          valid = f.valid;
          blocks = rest;
          weight = λ w s. omega (
            arith,
            f.weight w s,
            c.weight w s,
            held_weight-append w ys ((x, order) ∷ zs),
            held_weight-append w ys zs,
          );
        })

    Step-Conserves :
        {b b' : BuddyAllocator} {held held' : List (ℕ × ℕ)}
        → Step b held b' held'
        → Conserves b held
        → Conserves b' held'
    unfolding free
    Step-Conserves {b} {held = held} (take size e) c =
        subst (λ r. Conserves r.1 (grab r.0 (get_order logs b size) held)) e
          (allocate-Conserves b size held c)
    Step-Conserves {b} {held = held} (refuse size e) c =
        subst (λ r. Conserves r.1 (grab r.0 (get_order logs b size) held)) e
          (allocate-Conserves b size held c)
    Step-Conserves {b} (give x size ys zs h r f) c =
        rw (← f, r) (free-Conserves b x size ys zs (subst (Conserves b) h c))
    Step-Conserves (give_null size e) c = rw (← e) c

    pub reach-Conserves :
        {b c : BuddyAllocator} {held : List (ℕ × ℕ)}
        → Reach b c held
        → Conserves b []
        → Conserves c held
    reach-Conserves here c = c
    reach-Conserves (next r st) c = Step-Conserves st (reach-Conserves r c)
