-- ===== src/Sim/FirstFit/Tiling.antt =====
-- The blocks of the first-fit allocator tile its memory, with no two free blocks side by side.
use memory_allocator.Base.{
  ℕ, ◌+◌, ◌-◌, ◌^◌, ◌≤◌, ◌<◌, ◌≡◌, refl, subst, ltb, ltb→lt, ◌==◌, ◌&&◌, Bool, true, false,
  Bool-cases, inl, inr, Option, none, some, List, [], ◌∷◌, arith,
}
use memory_allocator.Base.Bits.{add64}
use memory_allocator.Sim.FirstFit.{
  Block, construct, fits, split, keep, place, outcome, allocate, mark, coalesce, coalesce_all, free,
}

-- Blocks that are not empty, one behind the other from `o` up to `e`.
abbrev pub Tiles : ℕ → ℕ → List Block → Type 0
Tiles o e [] = o ≡ e
Tiles o e (b ∷ rest) = (b.offset ≡ o) × (0 < b.size) × Tiles (o + b.size) e rest

-- The first block, if the list has one, is free only where `b` says that the block before is not.
abbrev pub Apart : Bool → List Block → Type 0
Apart b [] = Unit
Apart b (c ∷ rest) = (b && c.free ≡ false) × Apart c.free rest

pub Tiles-le : (o e : ℕ) (l : List Block) → Tiles o e l → o ≤ e
Tiles-le o e [] t = omega (arith, t)
Tiles-le o e (b ∷ l) t = omega (arith, t.1, Tiles-le (o + b.size) e l t.2)

-- A used block in front lets anything follow.
pub Apart-used : (b : Bool) (l : List Block) → Apart b l → Apart false l
Apart-used b [] a = _
Apart-used b (c ∷ l) a = (refl, a.1)

coalesce-Tiles :
    (b : Block) (o e : ℕ) (l : List Block)
    → e < 2 ^ 64
    → Tiles o e (b ∷ l)
    → Tiles o e (coalesce b l)
unfolding coalesce
coalesce-Tiles b o e [] w t = t
coalesce-Tiles b o e (c ∷ l) w t =
    let moved : Tiles (o + b.size) e (coalesce c l) = coalesce-Tiles c (o + b.size) e l w t.2 in
    let end = Tiles-le (o + b.size + c.size) e l t.2.2 in
    let sum : add64 b.size c.size ≡ b.size + c.size = omega (arith, end, w) in
    let joined : Tiles o e (record b { size = add64 b.size c.size } ∷ l) =
      (t.0, omega (arith, sum, t.1), subst (λ z. Tiles z e l) (omega (arith, sum)) t.2.2) in
    let merged = coalesce-Tiles (record b { size = add64 b.size c.size }) o e l w joined in
    elim (Bool-cases (b.free && c.free)) [
      | inl both ↦ rw both merged
      | inr apart ↦ rw apart (t.0, t.1, moved)
    ]

pub coalesce-Apart :
    (p : Bool) (b : Block) (l : List Block) → p && b.free ≡ false → Apart p (coalesce b l)
unfolding coalesce
coalesce-Apart p b [] h = (h, _)
coalesce-Apart p b (c ∷ l) h =
    let merged = coalesce-Apart p (record b { size = add64 b.size c.size }) l h in
    elim (Bool-cases (b.free && c.free)) [
      | inl both ↦ rw both merged
      | inr apart ↦ rw apart (h, coalesce-Apart b.free c l apart)
    ]

mark-Tiles : (x o e : ℕ) (l : List Block) → Tiles o e l → Tiles o e (mark x l)
unfolding mark
mark-Tiles x o e [] t = t
mark-Tiles x o e (b ∷ l) t = elim (Bool-cases (b.offset == x)) [
  | inl here ↦ rw here t
  | inr away ↦ rw away (t.0, t.1, mark-Tiles x (o + b.size) e l t.2)
]

-- What holds of the blocks between calls.
unfoldable pub IsTiled : ℕ → List Block → Type 0
IsTiled total bs = Tiles 0 total bs × Apart false bs

pub free-IsTiled :
    (total ptr : ℕ) (bs : List Block)
    → total < 2 ^ 64
    → IsTiled total bs
    → IsTiled total (free bs ptr)
unfolding free IsTiled
free-IsTiled total ptr bs w t = elim (Bool-cases (ptr == 0)) [
  | inl null ↦ rw null t
  | inr given ↦ rw given (merged (mark (ptr - 1) bs) (mark-Tiles (ptr - 1) 0 total bs t.0))
]
  where
    merged :
        (l : List Block)
        → Tiles 0 total l
        → Tiles 0 total (coalesce_all l) × Apart false (coalesce_all l)
    merged [] h = (h, _)
    merged (b ∷ l) h = (coalesce-Tiles b 0 total l w h, coalesce-Apart false b l refl)

abbrev After : Bool → ℕ → ℕ → Option (ℕ × List Block) → Type 0
After p o e none = Unit
After p o e (some (x, l)) = Tiles o e l × Apart p l

keep-After :
    (p : Bool) (o e : ℕ) (b : Block) (r : Option (ℕ × List Block))
    → b.offset ≡ o
    → 0 < b.size
    → p && b.free ≡ false
    → After b.free (o + b.size) e r
    → After p o e (keep b r)
keep-After p o e b none h z a r = _
keep-After p o e b (some (x, l)) h z a r = ((h, z, r.0), (a, r.1))

pub fits-true : (size : ℕ) (b : Block) → fits size b ≡ true → (b.free ≡ true) × (size ≤ b.size)
fits-true size b h = ground (arith, h)

and-false : (p : Bool) → p && false ≡ false
and-false true = refl
and-false false = refl

place-After :
    (size : ℕ) (p : Bool) (o e : ℕ) (l : List Block)
    → 0 < size
    → e < 2 ^ 64
    → Tiles o e l
    → Apart p l
    → After p o e (place size l)
unfolding place split
place-After size p o e [] z w t a = _
place-After size p o e (b ∷ l) z w t a = elim (Bool-cases (fits size b)) [
  | inr small ↦ rw small (
      keep-After p o e b (place size l) t.0 t.1 a.0
        (place-After size b.free (o + b.size) e l z w t.2 a.1))
  | inl large ↦
      let (opened, room) = fits-true size b large in
      let end = Tiles-le (o + b.size) e l t.2 in
      let shut = Apart-used b.free l a.1 in
      rw large elim (Bool-cases (ltb size b.size)) [
        | inr whole ↦ rw whole ((t.0, t.1, t.2), (and-false p, shut))
        | inl part ↦
            let less = ltb→lt size b.size part in
            let next : add64 b.offset size ≡ o + size = omega (arith, t.0, end, room, w) in
            let rest = subst (λ k. Tiles k e l) (omega (arith, less)) t.2 in
            rw part (
              (t.0, z, (next, omega (arith, less), rest)),
              (and-false p, (refl, subst (λ f. Apart f l) opened a.1)),
            )
      ]
]

pub allocate-IsTiled :
    (total size : ℕ) (bs : List Block)
    → 0 < size
    → total < 2 ^ 64
    → IsTiled total bs
    → IsTiled total (allocate bs size).1
unfolding allocate IsTiled
allocate-IsTiled total size bs z w t =
    placed (place size bs) (place-After size false 0 total bs z w t.0 t.1)
  where
    placed :
        (r : Option (ℕ × List Block))
        → After false 0 total r
        → Tiles 0 total (outcome bs r).1 × Apart false (outcome bs r).1
    placed none a = t
    placed (some (p, l)) a = a

-- The states of the allocator: it starts with one free block, and is asked for blocks that are not
-- empty and to free any pointer.
pub data Reach (total : ℕ) : List Block → Type 0 where
  start : Reach total (construct total)
  allocates :
      {bs : List Block} (size : ℕ) → 0 < size → Reach total bs → Reach total (allocate bs size).1
  frees : {bs : List Block} (ptr : ℕ) → Reach total bs → Reach total (free bs ptr)

pub construct-IsTiled : (total : ℕ) → 0 < total → IsTiled total (construct total)
unfolding construct IsTiled
construct-IsTiled total z = ((refl, z, omega arith), (refl, _))

-- Whatever is allocated and freed, in memory that is not empty and has less than 2^64 bytes, and
-- with no request for 0 bytes: the blocks lie one behind the other from 0 to the end of the memory,
-- none is empty, and no two free blocks are neighbours.
pub blocks_tile :
    {total : ℕ} {bs : List Block}
    → 0 < total
    → total < 2 ^ 64
    → Reach total bs
    → Tiles 0 total bs × Apart false bs
unfolding IsTiled
blocks_tile {total} z w start = construct-IsTiled total z
blocks_tile {total} z w (allocates {bs} size positive r) =
    allocate-IsTiled total size bs positive w (blocks_tile z w r)
blocks_tile {total} z w (frees {bs} ptr r) = free-IsTiled total ptr bs w (blocks_tile z w r)
