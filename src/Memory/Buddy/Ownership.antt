-- ===== src/Memory/Buddy/Ownership.antt =====
-- Who owns each byte of the storage, and what the allocator answers.
use native.Mathlib.Nat.{mul-div_cancel, mul-mod_left, add-zero, add-sub_cancel_left}
use memory_allocator.Base.{
  ℕ, zero, suc, ◌+◌, ◌-◌, ◌*◌, ◌/◌, ◌%◌, ◌^◌, ◌≤◌, ◌<◌, ◌≡◌, refl, sym, ap, ◌∙◌, Option, none, some,
  List, [], leb, Bool-cases, inl, inr, subst, leb→le, leb→gt, arith, All, true, ◌<◌, ◌∷◌, ==→eq,
  ◌==◌,
}
use memory_allocator.Base.Bits.{pow-pos, bit_and-clear}
use memory_allocator.Memory.VirtualMemory.{VirtualMemory}
use memory_allocator.Memory.FreeList.Segments.{member}
use native.Mathlib.Nat.{pow-le-pow_right}
use memory_allocator.Memory.Buddy.Weights.{
  Weight, total_weight, bytes, covers, bytes-Splits, covers-Splits, list_weight-member,
  total_weight-le,
}
use memory_allocator.Memory.Buddy.Geometry.{IsBlock, IsBlock-le, block_size-pow}
use memory_allocator.Memory.Buddy.Allocate.{
  IsValid, free_weight, Allocated, refused, granted, push_node-IsValid, push_node-weight,
}
use memory_allocator.Memory.Buddy.Clients.{
  LogLaws, IsPlaced, held_weight, Reach, Conserves, reach-Conserves, allocate-Allocated,
}
use memory_allocator.Memory.Buddy.{
  Logs, BuddyAllocator, block_size, construct, get_order, allocate, block_size_for_request,
  merge_of,
}

All-member : (P : ℕ → Type 0) (xs : List ℕ) (x : ℕ) → All P xs → member x xs ≡ true → P x
All-member P [] x h e = ground (arith, e)
All-member P (y ∷ xs) x h e = elim (Bool-cases (y == x)) [
  | inl same ↦ subst P (==→eq y x same) h.0
  | inr other ↦ All-member P xs x h.1 (rw other at e)
]

-- The block handed out by an answer.
granted-IsBlock :
    {m max base k x : ℕ} {b b' : BuddyAllocator} {r : Option ℕ × BuddyAllocator}
    → Allocated m max base k b r
    → r ≡ (some x, b')
    → IsBlock m max base k x
granted-IsBlock (refused h) e = cc (ap (λ r. r.0) e)
granted-IsBlock {m} {max} {base} {k} {x} (granted {x = y} i blk wt) e =
    let same : y ≡ x = cc (ap (λ r. r.0) e) in subst (IsBlock m max base k) same blk

-- A refusal changes nothing.
refused-lists :
    {m max base k : ℕ} {b b' : BuddyAllocator} {r : Option ℕ × BuddyAllocator}
    → Allocated m max base k b r
    → r ≡ (none, b')
    → (b ≡ b') × ((j : ℕ) → k ≤ j → j ≤ max → b.free_lists j ≡ [])
refused-lists (refused h) e = (ap (λ r. r.1) e, h)
refused-lists (granted i blk wt) e = cc (ap (λ r. r.0) e)

module _ (logs : Logs) (m max : ℕ) (storage : VirtualMemory) where
  abbrev pub start : BuddyAllocator
  start = construct logs storage (2 ^ max * 2 ^ m) (2 ^ m)

  total_weight-nil : (w : Weight) (n : ℕ) → total_weight w n (λ _. []) ≡ 0
  total_weight-nil w zero = refl
  total_weight-nil w (suc n) = omega (arith, total_weight-nil w n)

  pub construct-Conserves :
      LogLaws logs → IsPlaced m max storage → Conserves logs m max storage.ptr start []
  unfolding construct
  construct-Conserves laws p =
      let order : logs.floor_log2 (2 ^ max * 2 ^ m / 2 ^ m) ≡ max =
        rw (mul-div_cancel (2 ^ max) (pow-pos m), laws.floor_pow max) in
      let empty : BuddyAllocator = record {
        storage = storage;
        min_block_size = 2 ^ m;
        max_order = max;
        free_lists = λ _. [];
      } in
      let whole : IsBlock m max storage.ptr max storage.ptr = record {
        index = 0;
        above = 0;
        order = omega arith;
        within = omega arith;
        place = omega arith;
      } in
      let valid : IsValid m max storage.ptr empty = record {
        shape = record {
          unit = refl;
          top = refl;
          small = p.small;
          aligned = p.aligned;
          mapped = p.mapped;
          nonnull = p.nonnull;
        };
        start = refl;
        blocks = λ k l. tt;
      } in
      rw order (record {
        valid = push_node-IsValid m max storage.ptr empty max storage.ptr (omega arith) valid whole;
        blocks = tt;
        weight = λ w s. omega (
          arith,
          push_node-weight m max storage.ptr w empty max storage.ptr (omega arith),
          total_weight-nil w (suc max),
        );
      })

  -- The order of a request is large enough for it.
  order_fits :
      (b : BuddyAllocator) (size : ℕ)
      → LogLaws logs
      → b.min_block_size ≡ 2 ^ m
      → size ≤ 2 ^ 48
      → size ≤ 2 ^ (m + get_order logs b size)
  unfolding get_order
  order_fits b size laws unit l = elim (Bool-cases (leb size b.min_block_size)) [
    | inl e ↦ rw (e, add-zero) (omega (arith, leb→le size b.min_block_size e, unit))
    | inr e ↦ rw e (
        subst (λ t. size ≤ 2 ^ (m + logs.ceil_log2_ratio size t)) (sym unit)
          (laws.ceil_fits size m l (omega (arith, leb→gt size b.min_block_size e, unit))))
  ]

  module _ (laws : LogLaws logs) (placed : IsPlaced m max storage) {b : BuddyAllocator}
      {held : List (ℕ × ℕ)} (r : Reach logs start b held) where
    conserved : Conserves logs m max storage.ptr b held
    conserved = reach-Conserves logs m max storage.ptr r (construct-Conserves laws placed)

    -- In storage that starts at a multiple of its size, with smallest blocks of eight bytes or more,
    -- the laws of the logarithms and a client that frees only null and blocks that it holds, with
    -- sizes of their orders: at every moment each byte of the storage lies in exactly one block,
    -- free or held by the client, and no block covers a byte outside: the blocks that cover an
    -- address number 1 if it is in the storage and 0 if not. The eight bytes of the link that a
    -- free list keeps in a block of it lie in that block and in the storage, and so in no block that
    -- the client holds and in no other free block.
    pub covered_once :
        ((a : ℕ)
          → free_weight (covers m a) max b + held_weight (covers m a) held
            ≡ covers m a max storage.ptr)
        × ((k x i : ℕ)
            → k ≤ max
            → member x (b.free_lists k) ≡ true
            → i < 8
            → (covers m (x + i) k x ≡ 1)
              × (covers m (x + i) max storage.ptr ≡ 1)
              × (free_weight (covers m (x + i)) max b ≡ 1)
              × (held_weight (covers m (x + i)) held ≡ 0))
    covered_once = (
      λ a. conserved.weight (covers m a) (covers-Splits m a),
      λ k x i l free small.
          let blk : IsBlock m max storage.ptr k x =
            All-member (IsBlock m max storage.ptr k) (b.free_lists k) x (conserved.valid.blocks k l)
              free in
          let bounds = IsBlock-le m max storage.ptr k x blk in
          let orders : 3 ≤ m + k = omega (arith, placed.links) in
          let two : 0 < 2 = omega arith in
          let room : 2 ^ 3 ≤ 2 ^ (m + k) = pow-le-pow_right two orders in
          let here : covers m (x + i) k x ≡ 1 = ground (arith, room, small) in
          let inside : covers m (x + i) max storage.ptr ≡ 1 = ground (arith, room, small, bounds) in
          let listed = list_weight-member (covers m (x + i)) k x (b.free_lists k) free in
          let total = total_weight-le (covers m (x + i)) (suc max) k b.free_lists (omega arith) in
          let once = conserved.weight (covers m (x + i)) (covers-Splits m (x + i)) in
          (
            here,
            inside,
            omega (arith, here, inside, listed, total, once),
            omega (arith, here, inside, listed, total, once),
          ),
    )

    -- In storage that starts at a multiple of its size, with smallest blocks of eight bytes or more,
    -- the laws of the logarithms and a client that frees only null and blocks that it holds, with
    -- sizes of their orders:
    -- at every moment the bytes of the free blocks and of the held blocks add up to the storage.
    pub bytes_conserved : free_weight (bytes m) max b + held_weight (bytes m) held ≡ 2 ^ (m + max)
    bytes_conserved = conserved.weight (bytes m) (bytes-Splits m)

    -- In storage that starts at a multiple of its size, with smallest blocks of eight bytes or more,
    -- the laws of the logarithms and a client that frees only null and blocks that it holds, with
    -- sizes of their orders:
    -- at every moment, for a request of at most 2^48 bytes: a block that `Allocate` returns is
    -- large enough for the request, has the size that BlockSizeForRequest reports, lies in the
    -- storage, and starts at a multiple of its size after the storage's start.
    pub allocate_grants :
        (size : ℕ) {x : ℕ} {b' : BuddyAllocator}
        → size ≤ 2 ^ 48
        → allocate logs b size ≡ (some x, b')
        → let given = block_size_for_request logs b size in
          (size ≤ given)
          × (storage.ptr ≤ x)
          × (x + given ≤ storage.ptr + 2 ^ (m + max))
          × ((x - storage.ptr) % given ≡ 0)
    unfolding block_size_for_request
    allocate_grants size l e =
        elim (allocate-Allocated logs m max storage.ptr b size conserved.valid) [
          | inl (over, e') ↦ cc (ap (λ r. r.0) (sym e' ∙ e))
          | inr (k, a) ↦
              let order = get_order logs b size in
              let blk = granted-IsBlock a e in
              let bounds = IsBlock-le m max storage.ptr order _ blk in
              rw (block_size-pow m max b conserved.valid.shape order k) (
                order_fits b size laws conserved.valid.shape.unit l,
                bounds.0,
                bounds.1,
                rw (blk.place, add-sub_cancel_left) (mul-mod_left blk.index (2 ^ (m + order))),
              )
        ]

    -- In storage that starts at a multiple of its size, with smallest blocks of eight bytes or more,
    -- the laws of the logarithms and a client that frees only null and blocks that it holds, with
    -- sizes of their orders:
    -- at every moment: if `Allocate` returns null then it changes nothing, and no free list of
    -- the request's order or of a larger one has a block.
    pub allocate_refuses :
        (size : ℕ) {b' : BuddyAllocator}
        → allocate logs b size ≡ (none, b')
        → (b ≡ b') × ((k : ℕ) → get_order logs b size ≤ k → k ≤ max → b.free_lists k ≡ [])
    allocate_refuses size e =
        elim (allocate-Allocated logs m max storage.ptr b size conserved.valid) [
          | inl (over, e') ↦ (ap (λ r. r.1) (sym e' ∙ e), λ k p q. absurd (omega arith))
          | inr (l, a) ↦ refused-lists a e
        ]

-- The parent of a block and its buddy is computed from the address, not from the offset: in an
-- allocator whose storage starts at an odd multiple of a block size, the parent of the first
-- block of that size and its buddy starts below the storage.
pub merge_unaligned :
    (b : BuddyAllocator) (k j : ℕ)
    → j < 64
    → block_size b k ≡ 2 ^ j
    → b.storage.ptr < 2 ^ 64
    → b.storage.ptr / 2 ^ j % 2 ≡ 1
    → merge_of b b.storage.ptr k < b.storage.ptr
unfolding merge_of
merge_unaligned b k j l e h odd =
    rw e (omega (arith, bit_and-clear j 64 b.storage.ptr l h, ap (λ t. t * 2 ^ j) odd, pow-pos j))
