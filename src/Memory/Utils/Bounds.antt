-- ===== src/Memory/Utils/Bounds.antt =====
-- What AlignUp returns: the least multiple of the alignment that is not below the size.
use native.Mathlib.Nat.{mul-mod_left, div-add-mod', mod-lt}
use memory_allocator.Base.{ℕ, ◌+◌, ◌-◌, ◌*◌, ◌/◌, ◌%◌, ◌^◌, ◌≤◌, ◌<◌, ◌≡◌, true, arith}
use memory_allocator.Base.Bits.{add64, sub64, not64, bit_and-high, bit_and-low, pow-pos, pow-lt}
use memory_allocator.Memory.Utils.{align_up, align_ptr, cacheline_align_up, is_aligned}

-- The multiple of `2 ^ k` that a size is rounded up to.
abbrev pub rounded : ℕ → ℕ → ℕ
rounded size k = (size + 2 ^ k - 1) / 2 ^ k * 2 ^ k

pub record RoundsUp (size alignment r : ℕ) : Type 0 where
  pub aligned : r % alignment ≡ 0
  pub above : size ≤ r
  pub close : r < size + alignment

pub rounded-RoundsUp : (size k : ℕ) → RoundsUp size (2 ^ k) (rounded size k)
rounded-RoundsUp size k = record {
  aligned = mul-mod_left ((size + 2 ^ k - 1) / 2 ^ k) (2 ^ k);
  above = omega (
    arith,
    pow-pos k,
    div-add-mod' (size + 2 ^ k - 1) (2 ^ k),
    mod-lt (size + 2 ^ k - 1) (pow-pos k),
  );
  close = omega (arith, pow-pos k, div-add-mod' (size + 2 ^ k - 1) (2 ^ k));
}

mask_of_alignment : (k : ℕ) → k < 64 → not64 (sub64 (2 ^ k) 1) ≡ 2 ^ 64 - 2 ^ k
mask_of_alignment k l = omega (arith, pow-pos k, pow-lt k 64 l)

sum_of_alignment :
    (size k : ℕ) → k < 64 → size + 2 ^ k ≤ 2 ^ 64 → sub64 (add64 size (2 ^ k)) 1 ≡ size + 2 ^ k - 1
sum_of_alignment size k l h = omega (arith, pow-pos k)

pub align_up-rounded :
    (size k : ℕ) → k < 64 → size + 2 ^ k ≤ 2 ^ 64 → align_up size (2 ^ k) ≡ rounded size k
unfolding align_up
align_up-rounded size k l h =
    rw (mask_of_alignment k l, sum_of_alignment size k l h)
      (bit_and-high k 64 (size + 2 ^ k - 1) (omega arith) (omega (arith, pow-pos k)))

pub align_ptr-rounded :
    (ptr k : ℕ) → k < 64 → ptr + 2 ^ k ≤ 2 ^ 64 → align_ptr ptr (2 ^ k) ≡ rounded ptr k
unfolding align_ptr
align_ptr-rounded = align_up-rounded

-- For a power of two below 2^64, and a size that leaves room for the alignment below 2^64,
-- AlignUp returns a multiple of the alignment that is at least the size and exceeds it by less
-- than the alignment.
pub align_up-RoundsUp :
    (size k : ℕ) → k < 64 → size + 2 ^ k ≤ 2 ^ 64 → RoundsUp size (2 ^ k) (align_up size (2 ^ k))
align_up-RoundsUp size k l h = rw (align_up-rounded size k l h) (rounded-RoundsUp size k)

cacheline_align_up-align_up : (v align : ℕ) → cacheline_align_up v align ≡ align_up v align
unfolding cacheline_align_up align_up
cacheline_align_up-align_up v align = omega arith

-- For a power of two below 2^64, is_aligned holds of what memlab's align_up returns whenever the
-- value leaves room for the alignment below 2^64.
pub is_aligned-align_up :
    (v k : ℕ)
    → k < 64
    → v + 2 ^ k ≤ 2 ^ 64
    → is_aligned (cacheline_align_up v (2 ^ k)) (2 ^ k) ≡ true
unfolding is_aligned
is_aligned-align_up v k l h =
    rw (cacheline_align_up-align_up, mask, bit_and-low k)
      (ground (arith, (align_up-RoundsUp v k l h).aligned))
  where
    mask : sub64 (2 ^ k) 1 ≡ 2 ^ k - 1
    mask = omega (arith, pow-pos k, pow-lt k 64 l)
