-- ===== src/Memory/LinearArena/Regions.antt =====
-- What the arena hands out.
use memory_allocator.Base.{
  ℕ, ◌+◌, ◌-◌, ◌^◌, ◌≤◌, ◌<◌, ◌≡◌, ◌⊎◌, inl, inr, dec_le, All, ge→ltb, lt→ltb, none, some, List, [],
  ◌∷◌, refl, ap, arith,
}
use memory_allocator.Base.Bits.{add64, sub64, pow-pos}
use memory_allocator.Memory.Utils.{align_ptr}
use memory_allocator.Memory.Utils.Bounds.{rounded, rounded-RoundsUp, align_ptr-rounded}
use memory_allocator.Memory.VirtualMemory.{VirtualMemory}
use memory_allocator.Memory.LinearArena.{LinearArena, construct, allocate, allocate_all}

abbrev pub base : LinearArena → ℕ
base a = a.storage.ptr

abbrev pub capacity : LinearArena → ℕ
capacity a = a.storage.size

-- The offset is within the block, and the block within the address space.
pub record IsValid (a : LinearArena) : Type 0 where
  pub used : a.offset ≤ capacity a
  pub mapped : base a + capacity a ≤ 2 ^ 64

-- The request is small enough that no address or offset computed for it wraps.
pub record IsSmall (storage : VirtualMemory) (size k : ℕ) : Type 0 where
  pub power : k < 64
  pub address : storage.ptr + storage.size + 2 ^ k ≤ 2 ^ 64
  pub offsets : storage.size + 2 ^ k + size ≤ 2 ^ 64

-- Where the next block with alignment `2 ^ k` starts.
abbrev pub start : LinearArena → ℕ → ℕ
start a k = rounded (base a + a.offset) k

module _ (a : LinearArena) (size k : ℕ) (v : IsValid a) (s : IsSmall a.storage size k) where
  aligned_start : align_ptr (add64 (base a) a.offset) (2 ^ k) ≡ start a k
  aligned_start = rw address (align_ptr-rounded (base a + a.offset) k s.power (omega arith))
    where
      address : add64 (base a) a.offset ≡ base a + a.offset
      address = omega (arith, pow-pos k)

  new_offset : add64 (sub64 (start a k) (base a)) size ≡ start a k - base a + size
  new_offset = omega (arith, rounded-RoundsUp (base a + a.offset) k)

  -- In a valid arena, a request of a power-of-two alignment that is small enough for no sum to wrap
  -- is granted exactly when the block fits, at the first aligned address, and moves the offset just
  -- past the block; a refused request leaves the arena as it was.
  pub allocate_lem :
      ((start a k + size ≤ base a + capacity a)
        × (allocate a size (2 ^ k)
            ≡ (some (start a k), record a { offset = start a k - base a + size })))
      ⊎ ((base a + capacity a < start a k + size) × (allocate a size (2 ^ k) ≡ (none, a)))
  unfolding allocate
  allocate_lem = elim (dec_le (start a k + size) (base a + capacity a)) [
    | yes fits ↦ inl (
      fits,
      rw (
        aligned_start,
        new_offset,
        ge→ltb (capacity a) (start a k - base a + size)
            (omega (arith, rounded-RoundsUp (base a + a.offset) k)),
      ),
    )
    | no full ↦ inr (
      omega arith,
      rw (
        aligned_start,
        new_offset,
        lt→ltb (capacity a) (start a k - base a + size)
            (omega (arith, rounded-RoundsUp (base a + a.offset) k)),
      ),
    )
  ]

-- Regions, the latest first, stacked upwards from `lo` and ending at most at `hi`.
abbrev Stacked : ℕ → ℕ → List (ℕ × ℕ) → Type 0
Stacked lo hi [] = lo ≤ hi
Stacked lo hi ((p, n) ∷ r) = (p + n ≤ hi) × Stacked lo p r

Stacked-le : (lo hi : ℕ) (r : List (ℕ × ℕ)) → Stacked lo hi r → lo ≤ hi
Stacked-le lo hi [] h = h
Stacked-le lo hi ((p, n) ∷ r) h = omega (arith, Stacked-le lo p r h.1)

Stacked-mono : (lo hi hi' : ℕ) (r : List (ℕ × ℕ)) → hi ≤ hi' → Stacked lo hi r → Stacked lo hi' r
Stacked-mono lo hi hi' [] l h = omega arith
Stacked-mono lo hi hi' ((p, n) ∷ r) l h = (omega arith, h.1)

-- Two regions share no byte.
abbrev pub IsDisjoint : ℕ × ℕ → ℕ × ℕ → Type 0
IsDisjoint p q = (p.0 + p.1 ≤ q.0) ⊎ (q.0 + q.1 ≤ p.0)

-- Every region lies between `lo` and `hi` and shares no byte with another.
abbrev pub Separate : ℕ → ℕ → List (ℕ × ℕ) → Type 0
Separate lo hi [] = Unit
Separate lo hi (r ∷ rs) = (lo ≤ r.0) × (r.0 + r.1 ≤ hi) × All (IsDisjoint r) rs × Separate lo hi rs

Stacked-All :
    (lo hi : ℕ) (q : ℕ × ℕ) (r : List (ℕ × ℕ)) → hi ≤ q.0 → Stacked lo hi r → All (IsDisjoint q) r
Stacked-All lo hi q [] l h = tt
Stacked-All lo hi q ((p, n) ∷ r) l h = (inr (omega arith), Stacked-All lo p q r (omega arith) h.1)

Stacked-Separate :
    (lo hi top : ℕ) (r : List (ℕ × ℕ)) → hi ≤ top → Stacked lo hi r → Separate lo top r
Stacked-Separate lo hi top [] l h = tt
Stacked-Separate lo hi top ((p, n) ∷ r) l h = (
  Stacked-le lo p r h.1,
  omega arith,
  Stacked-All lo p (p, n) r (omega arith) h.1,
  Stacked-Separate lo p top r (omega arith) h.1,
)

-- Requests given by size and exponent of the alignment.
abbrev pub requests : List (ℕ × ℕ) → List (ℕ × ℕ)
requests [] = []
requests ((size, k) ∷ rs) = (size, 2 ^ k) ∷ requests rs

module _ (storage : VirtualMemory) where
  abbrev pub AllSmall : List (ℕ × ℕ) → Type 0
  AllSmall = All λ r. IsSmall storage r.0 r.1

  allocate_all-Stacked :
      (rs : List (ℕ × ℕ)) (offset : ℕ) (given : List (ℕ × ℕ))
      → IsValid (record { storage = storage; offset = offset })
      → AllSmall rs
      → Stacked storage.ptr (storage.ptr + offset) given
      → let a : LinearArena = record { storage = storage; offset = offset } in
        let (given', a') = allocate_all a (requests rs) given in
        IsValid a' × (a'.storage ≡ storage) × Stacked storage.ptr (storage.ptr + a'.offset) given'
  unfolding allocate_all construct
  allocate_all-Stacked [] offset given v s h = (v, refl, h)
  allocate_all-Stacked ((size, k) ∷ rs) offset given v s h = elim (allocate_lem a size k v s.0) [
    | inl (fits, e) ↦
        rw (e, allocate_all)
          (allocate_all-Stacked rs (start a k - base a + size) ((start a k, size) ∷ given)
            (record {
              used = omega (arith, rounded-RoundsUp (base a + offset) k);
              mapped = v.mapped;
            })
            s.1
            (
              omega (arith, rounded-RoundsUp (base a + offset) k),
              Stacked-mono _ _ _ given (omega (arith, rounded-RoundsUp (base a + offset) k)) h,
            ))
    | inr (full, e) ↦ rw (e, allocate_all) (allocate_all-Stacked rs offset given v s.1 h)
  ]
    where
      a : LinearArena
      a = record { storage = storage; offset = offset }

  -- Whatever requests, small enough for no sum to wrap, follow one another on a fresh arena: the
  -- regions that it grants lie within its storage, and no two of them share a byte.
  pub allocate_all-Separate :
      (rs : List (ℕ × ℕ))
      → storage.ptr + storage.size ≤ 2 ^ 64
      → AllSmall rs
      → Separate storage.ptr
          (storage.ptr + storage.size)
          (allocate_all (construct storage) (requests rs) []).0
  unfolding construct
  allocate_all-Separate rs h s =
      let (v, e, stacked) = allocate_all-Stacked rs 0 [] (omega arith) s (omega arith) in
      Stacked-Separate _ _ _ _ (omega (arith, v.used, ap (λ w. w.size) e)) stacked
