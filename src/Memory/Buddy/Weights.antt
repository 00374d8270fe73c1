-- ===== src/Memory/Buddy/Weights.antt =====
-- Additive measures of the free lists. A weight gives each free block, by order and address, a
-- number, and splits if a block weighs as much as its halves: its size in bytes does, and so does
-- whether it covers a given address.
use native.Mathlib.Nat.{add-suc, pow-suc}
use memory_allocator.Base.{
  ℕ, zero, suc, ◌+◌, ◌^◌, ◌≤◌, ◌<◌, ◌≡◌, refl, ap, ltb, leb, ◌==◌, if◌then◌else◌, ==→eq, ne→==,
  true, ◌&&◌, List, [], ◌∷◌, Bool-cases, inl, inr, arith,
}
use memory_allocator.Memory.FreeList.Segments.{remove, member}
use memory_allocator.Memory.Buddy.{put}

abbrev pub Weight : Type 0
Weight = ℕ → ℕ → ℕ

-- With a smallest block of `2 ^ m` bytes.
abbrev pub Splits : ℕ → Weight → Type 0
Splits m w = (k x : ℕ) → w (suc k) x ≡ w k x + w k (x + 2 ^ (m + k))

abbrev pub list_weight : Weight → ℕ → List ℕ → ℕ
list_weight w k [] = 0
list_weight w k (x ∷ xs) = w k x + list_weight w k xs

-- The weight of all blocks of the orders below `n`.
abbrev pub total_weight : Weight → ℕ → (ℕ → List ℕ) → ℕ
total_weight w zero f = 0
total_weight w (suc n) f = total_weight w n f + list_weight w n (f n)

total_weight-put_ge :
    (w : Weight) (n k : ℕ) (f : ℕ → List ℕ) (v : List ℕ)
    → n ≤ k
    → total_weight w n (put f k v) ≡ total_weight w n f
total_weight-put_ge w zero k f v h = refl
total_weight-put_ge w (suc n) k f v h =
    rw (total_weight-put_ge w n k f v (omega arith), ne→== n k (omega arith))

pub total_weight-put :
    (w : Weight) (n k : ℕ) (f : ℕ → List ℕ) (v : List ℕ)
    → k < n
    → total_weight w n (put f k v) + list_weight w k (f k) ≡ total_weight w n f + list_weight w k v
total_weight-put w zero k f v h = absurd (omega arith)
total_weight-put w (suc n) k f v h = elim (Bool-cases (n == k)) [
  | inl e ↦
      let same = ==→eq n k e in
      rw e (
        omega (
          arith,
          total_weight-put_ge w n k f v (omega (arith, same)),
          ap (λ j. list_weight w j (f j)) same,
          ap (λ j. list_weight w j v) same,
        ))
  | inr e ↦ rw e (omega (arith, total_weight-put w n k f v (ground arith)))
]

pub list_weight-remove :
    (w : Weight) (k t : ℕ) (xs : List ℕ)
    → member t xs ≡ true
    → list_weight w k (remove t xs) + w k t ≡ list_weight w k xs
list_weight-remove w k t [] h = cc
list_weight-remove w k t (x ∷ xs) h = elim (Bool-cases (x == t)) [
  | inl e ↦ rw (e, ==→eq x t e) (omega arith)
  | inr e ↦ rw e (omega (arith, list_weight-remove w k t xs (rw e at h)))
]

pub list_weight-member :
    (w : Weight) (k t : ℕ) (xs : List ℕ) → member t xs ≡ true → w k t ≤ list_weight w k xs
list_weight-member w k t xs h = omega (arith, list_weight-remove w k t xs h)

-- The lists of one order weigh no more than all.
pub total_weight-le :
    (w : Weight) (n k : ℕ) (f : ℕ → List ℕ) → k < n → list_weight w k (f k) ≤ total_weight w n f
total_weight-le w n k f h = omega (arith, total_weight-put w n k f [] h)

-- The bytes of the blocks.
abbrev pub bytes : ℕ → Weight
bytes m k x = 2 ^ (m + k)

-- Whether a block covers the address `a`.
abbrev pub covers : ℕ → ℕ → Weight
covers m a k x = if leb x a && ltb a (x + 2 ^ (m + k)) then 1 else 0

pub pow_suc_order : (m k : ℕ) → 2 ^ (m + suc k) ≡ 2 ^ (m + k) + 2 ^ (m + k)
pow_suc_order m k = rw (add-suc, pow-suc) (omega arith)

pub bytes-Splits : (m : ℕ) → Splits m (bytes m)
bytes-Splits m k x = pow_suc_order m k

pub covers-Splits : (m a : ℕ) → Splits m (covers m a)
covers-Splits m a k x = ground (arith, pow_suc_order m k)
