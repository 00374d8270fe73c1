-- ===== src/Memory/Buddy/Orders.antt =====
-- The order of a block's size: a block that is freed with the size that BlockSizeForRequest reports
-- is freed with the order of the request.
use memory_allocator.Base.{
  ℕ, ◌+◌, ◌^◌, ◌≤◌, ◌<◌, ◌≡◌, ap, leb, leb→le, leb→gt, dec_lt, Bool-cases, inl, inr, if◌then◌else◌,
  arith,
}
use memory_allocator.Base.Bits.{pow-lt}
use memory_allocator.Memory.Buddy.{Logs, BuddyAllocator, get_order, block_size_for_request}
use memory_allocator.Memory.Buddy.Clients.{LogLaws}
use memory_allocator.Memory.Buddy.Geometry.{HasShape, block_size-pow}

pow-le : (j k : ℕ) → j ≤ k → 2 ^ j ≤ 2 ^ k
pow-le j k h = elim (dec_lt j k) [
  | yes l ↦ omega (arith, pow-lt j k l)
  | no n ↦ let same : j ≡ k = omega (arith, n, h) in omega (arith, ap (λ t. 2 ^ t) same)
]

pub pow-reflects : (j k : ℕ) → 2 ^ j ≤ 2 ^ k → j ≤ k
pow-reflects j k h = elim (dec_lt k j) [
  | yes l ↦ absurd (omega (arith, pow-lt k j l, h))
  | no n ↦ omega (arith, n)
]

module _ (logs : Logs) (laws : LogLaws logs) where
  -- The order of a block's size is the block's order.
  pub order_of_block :
      (m k : ℕ) (b : BuddyAllocator)
      → b.min_block_size ≡ 2 ^ m
      → m + k ≤ 48
      → get_order logs b (2 ^ (m + k)) ≡ k
  unfolding get_order
  order_of_block m k b unit l = elim (Bool-cases (leb (2 ^ (m + k)) b.min_block_size)) [
    | inl small ↦
        let le : 2 ^ (m + k) ≤ 2 ^ m =
          omega (arith, leb→le (2 ^ (m + k)) b.min_block_size small, unit) in
        let none_left = pow-reflects (m + k) m le in rw small omega (arith, none_left)
    | inr large ↦
        let gt : 2 ^ m < 2 ^ (m + k) =
          omega (arith, leb→gt (2 ^ (m + k)) b.min_block_size large, unit) in
        let room = pow-le (m + k) 48 l in
        let least = laws.ceil_least (2 ^ (m + k)) m k room gt (omega arith) in
        let fits =
          pow-reflects (m + k) (m + logs.ceil_log2_ratio (2 ^ (m + k)) (2 ^ m))
            (laws.ceil_fits (2 ^ (m + k)) m room gt) in
        rw (large, unit) omega (arith, least, fits)
  ]

  -- The reported size of a request is that of its order.
  pub reported_size :
      (m max : ℕ) (b : BuddyAllocator) (size : ℕ)
      → HasShape m max b
      → get_order logs b size ≤ max
      → block_size_for_request logs b size ≡ 2 ^ (m + get_order logs b size)
  unfolding block_size_for_request
  reported_size m max b size g l = block_size-pow m max b g (get_order logs b size) l

-- The order of a request depends on the smallest block only.
pub get_order-same :
    (logs : Logs) (b b' : BuddyAllocator) (size : ℕ)
    → b.min_block_size ≡ b'.min_block_size
    → get_order logs b size ≡ get_order logs b' size
unfolding get_order
get_order-same logs b b' size e = ap (λ t. if leb size t then 0 else logs.ceil_log2_ratio size t) e
