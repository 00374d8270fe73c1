-- ===== src/Memory/Buddy/SearchLogs.antt =====
-- Logarithms by search, which meet the laws that the buddy allocator relies on.
use memory_allocator.Base.{
  ℕ, zero, suc, ◌+◌, ◌*◌, ◌^◌, ◌≤◌, ◌<◌, ◌≡◌, sym, ap, leb, ltb, if◌then◌else◌, Bool, true, false,
  Bool-cases, inl, inr, leb→le, ltb→lt, lt→ltb, le→leb, dec_le, dec_lt, arith,
}
use native.Mathlib.Nat.{pow-suc}
use memory_allocator.Base.Bits.{pow-pos, pow-lt}
use memory_allocator.Memory.Buddy.Geometry.{pow_add}
use memory_allocator.Memory.Buddy.Clients.{LogLaws}
use memory_allocator.Memory.Buddy.{Logs}

-- The least number from `k` on, among `fuel` of them, that passes the test.
unfoldable pub least : (ℕ → Bool) → ℕ → ℕ → ℕ
least p zero k = k
least p (suc fuel) k = let later = least p fuel (suc k) in if p k then k else later

least_lem :
    (p : ℕ → Bool) (fuel k j : ℕ)
    → p j ≡ true
    → k ≤ j
    → j ≤ fuel + k
    → (p (least p fuel k) ≡ true) × (least p fuel k ≤ j)
unfolding least
least_lem p zero k j h l u = let same : j ≡ k = omega arith in (rw same at h, l)
least_lem p (suc fuel) k j h l u = elim (Bool-cases (p k)) [
  | inl e ↦ rw e (e, l)
  | inr e ↦ rw e (least_lem p fuel (suc k) j h (later (dec_lt k j) e) (omega arith))
]
  where
    later : Dec (k < j) → p k ≡ false → suc k ≤ j
    later (yes q) e = q
    later (no q) e = let same : j ≡ k = omega arith in cc (sym (rw same at h), e)

abbrev pub search_logs : Logs
search_logs = record {
  floor_log2 = λ n. least (λ k. ltb n (2 ^ suc k)) n 0;
  ceil_log2_ratio = λ size min. least (λ k. leb size (min * 2 ^ k)) 48 0;
}

lt-pow : (k : ℕ) → k < 2 ^ k
lt-pow zero = omega arith
lt-pow (suc k) = omega (arith, lt-pow k, pow-suc 2 k)

lt_of_pow : (k j : ℕ) → 2 ^ k < 2 ^ suc j → k ≤ j
lt_of_pow k j h = elim (dec_le k j) [
  | yes l ↦ l
  | no l ↦ elim (dec_lt (suc j) k) [
    | yes q ↦ absurd (omega (arith, pow-lt (suc j) k q))
    | no q ↦ let same : suc j ≡ k = omega arith in absurd (omega (arith, ap (λ t. 2 ^ t) same))
  ]
]

search_floor : (k : ℕ) → search_logs.floor_log2 (2 ^ k) ≡ k
search_floor k =
    let test : ℕ → Bool = λ j. ltb (2 ^ k) (2 ^ suc j) in
    let (found, bound) =
      least_lem test (2 ^ k) 0 k
        (lt→ltb (2 ^ k) (2 ^ suc k) (omega (arith, pow-suc 2 k, pow-pos k))) (omega arith)
        (omega (arith, lt-pow k)) in
    omega (arith, bound, lt_of_pow k (least test (2 ^ k) 0) (ltb→lt (2 ^ k) _ found))

search_ceil :
    (size m k : ℕ)
    → k ≤ 48
    → size ≤ 2 ^ (m + k)
    → (size ≤ 2 ^ (m + search_logs.ceil_log2_ratio size (2 ^ m)))
      × (search_logs.ceil_log2_ratio size (2 ^ m) ≤ k)
search_ceil size m k s l =
    let test : ℕ → Bool = λ j. leb size (2 ^ m * 2 ^ j) in
    let (found, bound) =
      least_lem test 48 0 k (le→leb size (2 ^ m * 2 ^ k) (omega (arith, l, pow_add m k)))
        (omega arith) (omega arith) in
    (omega (arith, leb→le size _ found, pow_add m (least test 48 0)), bound)

pub search_logs-LogLaws : LogLaws search_logs
search_logs-LogLaws = record {
  floor_pow = search_floor;
  ceil_fits = λ size m l h.
      (search_ceil size m 48 (omega arith) (omega (arith, l, pow_add m 48, pow-pos m))).0;
  ceil_least = λ size m k l h f. least_of size m k l f (dec_le k 48);
}
  where
    least_of :
        (size m k : ℕ)
        → size ≤ 2 ^ 48
        → size ≤ 2 ^ (m + k)
        → Dec (k ≤ 48)
        → search_logs.ceil_log2_ratio size (2 ^ m) ≤ k
    least_of size m k l f (yes q) = (search_ceil size m k q f).1
    least_of size m k l f (no q) =
        omega (
          arith,
          (search_ceil size m 48 (omega arith) (omega (arith, l, pow_add m 48, pow-pos m))).1,
        )
