-- ===== src/Memory/Buddy/Geometry.antt =====
-- Where blocks lie. With a smallest block of `2 ^ m` bytes and orders up to `max`, the block of
-- order `k` and index `i` starts `i * 2 ^ (m + k)` bytes after the base.
use native.Mathlib.Nat.{
  add-suc, add-zero, pow-suc, pow-zero, mul-le-mul_right, mul-div_cancel, div-add-mod', add_comm,
  mul_comm, mod-eq_of_lt,
}
use memory_allocator.Base.{
  ℕ, zero, suc, ◌+◌, ◌*◌, ◌/◌, ◌%◌, ◌^◌, ◌≤◌, ◌<◌, ◌≡◌, ap, ◌∙◌, bit_and, bit_xor, arith,
  ℕ_discrete,
}
use memory_allocator.Base.Bits.{add64, sub64, not64, bit_and-clear, bit_xor-flip, pow-pos, pow-lt}
use memory_allocator.Memory.Buddy.Weights.{Weight, Splits, pow_suc_order}
use memory_allocator.Memory.Buddy.{BuddyAllocator, block_size, buddy_of, merge_of}

pub pow_add : (m k : ℕ) → 2 ^ (m + k) ≡ 2 ^ k * 2 ^ m
pow_add m zero = rw (add-zero, pow-zero) (omega arith)
pow_add m (suc k) = rw (add-suc, pow-suc 2 (m + k), pow-suc 2 k, pow_add m k) (omega arith)

-- The shape of an allocator: its storage starts at a multiple of its size, below 2^64.
pub record HasShape (m max : ℕ) (b : BuddyAllocator) : Type 0 where
  pub unit : b.min_block_size ≡ 2 ^ m
  pub top : b.max_order ≡ max
  pub small : m + max < 64
  pub aligned : b.storage.ptr % 2 ^ (m + max) ≡ 0
  pub mapped : b.storage.ptr + 2 ^ (m + max) ≤ 2 ^ 64
  pub nonnull : 0 < b.storage.ptr

-- The block of order `k` and index `i` after `base`.
abbrev pub at : ℕ → ℕ → ℕ → ℕ → ℕ
at m base k i = base + i * 2 ^ (m + k)

-- A block of order `k` of the storage.
pub record IsBlock (m max base k x : ℕ) : Type 0 where
  pub index : ℕ
  pub above : ℕ
  pub order : k + above ≡ max
  pub within : index < 2 ^ above
  pub place : x ≡ at m base k index

-- The storage in blocks of one order.
pub pow_total : (m max k e : ℕ) → k + e ≡ max → 2 ^ (m + max) ≡ 2 ^ e * 2 ^ (m + k)
pow_total m max k e o =
    let total : m + max ≡ m + k + e = omega arith in rw total (pow_add (m + k) e)

module _ (m max base : ℕ) where
  -- A block ends within the storage.
  pub IsBlock-le :
      (k x : ℕ) → IsBlock m max base k x → (base ≤ x) × (x + 2 ^ (m + k) ≤ base + 2 ^ (m + max))
  IsBlock-le k x r =
      let total : 2 ^ (m + max) ≡ 2 ^ r.above * 2 ^ (m + k) = pow_total m max k r.above r.order in
      let fits : (r.index + 1) * 2 ^ (m + k) ≤ 2 ^ r.above * 2 ^ (m + k) =
        mul-le-mul_right (2 ^ (m + k)) (omega (arith, r.within)) in
      (omega (arith, r.place), omega (arith, r.place, total, fits))

-- An aligned base is an even multiple of every smaller block.
base_quotient :
    (m max k d base : ℕ)
    → k + suc d ≡ max
    → base % 2 ^ (m + max) ≡ 0
    → (c : ℕ) × (base ≡ 2 * c * 2 ^ (m + k))
base_quotient m max k d base o a = (
  base / 2 ^ (m + max) * 2 ^ d,
  omega (
    arith,
    div-add-mod' base (2 ^ (m + max)),
    ap (λ t. base / 2 ^ (m + max) * t) (pow_total m max k (suc d) o),
    ap (λ t. base / 2 ^ (m + max) * (t * 2 ^ (m + k))) (pow-suc 2 d),
  ),
)

digit_of : (q j : ℕ) → q * 2 ^ j / 2 ^ j % 2 * 2 ^ j ≡ q % 2 * 2 ^ j
digit_of q j = ap (λ t. t % 2 * 2 ^ j) (mul-div_cancel q (pow-pos j))

flip_even : (q j : ℕ) → bit_xor (2 * q * 2 ^ j) (2 ^ j) ≡ (2 * q + 1) * 2 ^ j
flip_even q j =
    let even : 2 * q % 2 ≡ 0 = omega arith in
    omega (arith, bit_xor-flip j (2 * q * 2 ^ j), digit_of (2 * q) j, ap (λ t. t * 2 ^ j) even)

flip_odd : (q j : ℕ) → bit_xor ((2 * q + 1) * 2 ^ j) (2 ^ j) ≡ 2 * q * 2 ^ j
flip_odd q j =
    let odd : (2 * q + 1) % 2 ≡ 1 = omega arith in
    omega
      (arith, bit_xor-flip j ((2 * q + 1) * 2 ^ j), digit_of (2 * q + 1) j, ap (λ t. t * 2 ^ j) odd)

clear_even : (x q j : ℕ) → j < 64 → x < 2 ^ 64 → x ≡ 2 * q * 2 ^ j → bit_and x (not64 (2 ^ j)) ≡ x
clear_even x q j l b e =
    let even : 2 * q % 2 ≡ 0 = omega arith in
    omega (
      arith,
      bit_and-clear j 64 x l b,
      ap (λ t. t / 2 ^ j % 2 * 2 ^ j) e,
      digit_of (2 * q) j,
      ap (λ t. t * 2 ^ j) even,
    )

clear_odd :
    (x q j : ℕ)
    → j < 64
    → x < 2 ^ 64
    → x ≡ (2 * q + 1) * 2 ^ j
    → bit_and x (not64 (2 ^ j)) + 2 ^ j ≡ x
clear_odd x q j l b e =
    let odd : (2 * q + 1) % 2 ≡ 1 = omega arith in
    omega (
      arith,
      bit_and-clear j 64 x l b,
      ap (λ t. t / 2 ^ j % 2 * 2 ^ j) e,
      digit_of (2 * q + 1) j,
      ap (λ t. t * 2 ^ j) odd,
    )

module _ (m max : ℕ) (b : BuddyAllocator) (g : HasShape m max b) where
  abbrev base : ℕ
  base = b.storage.ptr

  pub block_size-pow : (k : ℕ) → k ≤ max → block_size b k ≡ 2 ^ (m + k)
  unfolding block_size
  block_size-pow k l =
      rw (g.unit, ← mul_comm (2 ^ k) (2 ^ m), ← pow_add m k)
        (mod-eq_of_lt (pow-lt (m + k) 64 (omega (arith, g.small))))

  module _ (k d h : ℕ) (o : k + suc d ≡ max) (w : h < 2 ^ d) where
    abbrev s : ℕ
    s = 2 ^ (m + k)

    -- Both halves of block `h` of the next order lie in the address space.
    room : base + (2 * h + 2) * s ≤ 2 ^ 64
    room =
        let halves : suc h * s ≤ 2 ^ d * s = mul-le-mul_right s w in
        omega (arith, halves, g.mapped, pow_total m max k (suc d) o, ap (λ t. t * s) (pow-suc 2 d))

    buddy_even : buddy_of b (at m base k (2 * h)) k ≡ at m base k (2 * h + 1)
    unfolding buddy_of
    buddy_even =
        let offset : sub64 (at m base k (2 * h)) base ≡ 2 * h * s = omega (arith, room) in
        rw (block_size-pow k (omega arith), offset, flip_even h (m + k))
          (omega (arith, room, pow-pos (m + k)))

    buddy_odd : buddy_of b (at m base k (2 * h + 1)) k ≡ at m base k (2 * h)
    unfolding buddy_of
    buddy_odd =
        let offset : sub64 (at m base k (2 * h + 1)) base ≡ (2 * h + 1) * s = omega (arith, room) in
        rw (block_size-pow k (omega arith), offset, flip_odd h (m + k))
          (omega (arith, room, pow-pos (m + k)))

    merge_even : merge_of b (at m base k (2 * h)) k ≡ at m base k (2 * h)
    unfolding merge_of
    merge_even =
        let (c, e) = base_quotient m max k d base o g.aligned in
        rw (block_size-pow k (omega arith)) (
          clear_even (at m base k (2 * h)) (c + h) (m + k) (omega (arith, g.small))
            (omega (arith, room, pow-pos (m + k))) (omega (arith, e)))

    merge_odd : merge_of b (at m base k (2 * h + 1)) k ≡ at m base k (2 * h)
    unfolding merge_of
    merge_odd =
        let (c, e) = base_quotient m max k d base o g.aligned in
        rw (block_size-pow k (omega arith)) (
          omega (
            arith,
            clear_odd (at m base k (2 * h + 1)) (c + h) (m + k) (omega (arith, g.small))
                (omega (arith, room, pow-pos (m + k))) (omega (arith, e)),
          ))

  -- What FreeInternal makes of a block and its buddy: their parent, which weighs as much as both.
  pub record Coalesces (k x : ℕ) : Type 1 where
    pub parent : IsBlock m max base (suc k) (merge_of b x k)
    pub weight :
        (w : Weight) → Splits m w → w (suc k) (merge_of b x k) ≡ w k x + w k (buddy_of b x k)

  parent_at :
      (k d h : ℕ) → k + suc d ≡ max → h < 2 ^ d → IsBlock m max base (suc k) (at m base k (2 * h))
  parent_at k d h o l = record {
    index = h;
    above = d;
    order = omega arith;
    within = l;
    place = ap (λ t. base + t) (rw (pow_suc_order m k) (omega arith));
  }

  Coalesces-even :
      (k d h x : ℕ) → k + suc d ≡ max → h < 2 ^ d → x ≡ at m base k (2 * h) → Coalesces k x
  Coalesces-even k d h x o l e = rw e (record {
    parent = rw (merge_even k d h o l) (parent_at k d h o l);
    weight = λ w s.
        rw (merge_even k d h o l, buddy_even k d h o l)
          (s k (at m base k (2 * h)) ∙ ap (λ t. w k (at m base k (2 * h)) + w k t) (omega arith));
  })

  Coalesces-odd :
      (k d h x : ℕ) → k + suc d ≡ max → h < 2 ^ d → x ≡ at m base k (2 * h + 1) → Coalesces k x
  Coalesces-odd k d h x o l e = rw e (record {
    parent = rw (merge_odd k d h o l) (parent_at k d h o l);
    weight = λ w s.
        rw (merge_odd k d h o l, buddy_odd k d h o l)
          (s k (at m base k (2 * h))
            ∙ (add_comm (w k (at m base k (2 * h))) (w k (at m base k (2 * h) + 2 ^ (m + k)))
                ∙ ap (λ t. w k t + w k (at m base k (2 * h))) (omega arith)));
  })

  Coalesces-at :
      (k e i x : ℕ) → k + e ≡ max → k < max → i < 2 ^ e → x ≡ at m base k i → Coalesces k x
  Coalesces-at k zero i x o l w e = absurd (omega arith)
  Coalesces-at k (suc d) i x o l w e = elim (ℕ_discrete (i % 2) 0) [
    | yes even ↦
        let i_even : i ≡ 2 * (i / 2) = omega arith in
        Coalesces-even k d (i / 2) x o (omega (arith, pow-suc 2 d)) (rw (← i_even) e)
    | no odd ↦
        let i_odd : i ≡ 2 * (i / 2) + 1 = omega arith in
        Coalesces-odd k d (i / 2) x o (omega (arith, pow-suc 2 d)) (rw (← i_odd) e)
  ]

  pub coalesces : (k x : ℕ) → k < max → IsBlock m max base k x → Coalesces k x
  coalesces k x l r = Coalesces-at k r.above r.index x r.order l r.within r.place

  -- The halves of a block.
  pub halves :
      (k x : ℕ)
      → IsBlock m max base (suc k) x
      → IsBlock m max base k x
        × IsBlock m max base k (x + 2 ^ (m + k))
        × (add64 x (block_size b k) ≡ x + 2 ^ (m + k))
  halves k x r =
      let twice : r.index * 2 ^ (m + suc k) ≡ 2 * r.index * 2 ^ (m + k) =
        rw (pow_suc_order m k) (omega arith) in
      let order : k + suc r.above ≡ max = omega (arith, r.order) in
      let bounds = IsBlock-le m max base (suc k) x r in
      (
        record {
          index = 2 * r.index;
          above = suc r.above;
          order = order;
          within = omega (arith, r.within, pow-suc 2 r.above);
          place = omega (arith, r.place, twice);
        },
        record {
          index = 2 * r.index + 1;
          above = suc r.above;
          order = order;
          within = omega (arith, r.within, pow-suc 2 r.above);
          place = omega (arith, r.place, twice);
        },
        rw (block_size-pow k (omega (arith, r.order)))
            (omega (arith, bounds.1, g.mapped, pow_suc_order m k, pow-pos (m + k))),
      )
