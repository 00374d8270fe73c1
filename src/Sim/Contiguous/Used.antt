-- ===== src/Sim/Contiguous/Used.antt =====
-- How many used blocks lie at an offset, and what allocating and freeing make of it.
use memory_allocator.Base.{
  ℕ, ◌+◌, ◌-◌, ◌^◌, ◌≤◌, ◌<◌, ◌≡◌, refl, ap, subst, ◌∙◌, ltb, ◌==◌, ==→eq, if◌then◌else◌, ◌&&◌, not,
  true, false, Bool-cases, inl, inr, Option, none, some, List, [], ◌∷◌, arith,
}
use memory_allocator.Base.Bits.{add64}
use memory_allocator.Sim.FirstFit.{
  Block, fits, split, keep, place, outcome, allocate, mark, coalesce, coalesce_all, free,
}
use memory_allocator.Sim.FirstFit.Tiling.{Tiles, Tiles-le, fits-true}

-- The used blocks at an offset.
abbrev pub used_at : ℕ → List Block → ℕ
used_at x [] = 0
used_at x (b ∷ rest) = (if not b.free && b.offset == x then 1 else 0) + used_at x rest

-- Blocks that are not empty have offsets of their own.
used_at-before : (x o e : ℕ) (l : List Block) → x < o → Tiles o e l → used_at x l ≡ 0
used_at-before x o e [] h t = refl
used_at-before x o e (b ∷ l) h t =
    let later = used_at-before x (o + b.size) e l (omega (arith, h)) t.2 in
    let start = t.0 in ground (arith, later, start, h)

pub used_at-once : (x o e : ℕ) (l : List Block) → Tiles o e l → used_at x l ≤ 1
used_at-once x o e [] t = omega arith
used_at-once x o e (b ∷ l) t =
    let again = used_at-once x (o + b.size) e l t.2 in
    let start = t.0 in
    let room = t.1 in
    elim (Bool-cases (b.offset == x)) [
      | inl here ↦
          let at = ==→eq b.offset x here in
          let later = used_at-before x (o + b.size) e l (omega (arith, at, start, room)) t.2 in
          ground (arith, later)
      | inr away ↦ ground (arith, away, again)
    ]

-- Merging free blocks leaves the used ones.
coalesce-used_at :
    (x : ℕ) (b : Block) (l : List Block) → used_at x (coalesce b l) ≡ used_at x (b ∷ l)
unfolding coalesce
coalesce-used_at x b [] = refl
coalesce-used_at x b (c ∷ l) =
    let merged = coalesce-used_at x (record b { size = add64 b.size c.size }) l in
    let moved = coalesce-used_at x c l in
    elim (Bool-cases (b.free && c.free)) [
      | inl both ↦ rw both (merged ∙ ground (arith, both))
      | inr apart ↦ rw apart (ap (λ n. (if not b.free && b.offset == x then 1 else 0) + n) moved)
    ]

-- The used block at `o` becomes free.
mark-used_at :
    (x p o e : ℕ) (l : List Block)
    → Tiles o e l
    → used_at x (mark p l) ≡ (if x == p then 0 else used_at x l)
unfolding mark
mark-used_at x p o e [] t = ground arith
mark-used_at x p o e (b ∷ l) t =
    let later = mark-used_at x p (o + b.size) e l t.2 in
    let start = t.0 in
    let room = t.1 in
    elim (Bool-cases (b.offset == p)) [
      | inr away ↦ rw away ground (arith, later, away)
      | inl here ↦
          let at = ==→eq b.offset p here in
          let gone = used_at-before p (o + b.size) e l (omega (arith, at, start, room)) t.2 in
          rw here elim (Bool-cases (x == p)) [
            | inl same ↦
                let is = ==→eq x p same in rw same omega (arith, ap (λ z. used_at z l) is ∙ gone)
            | inr other ↦ rw other ground (arith, at, other)
          ]
    ]

-- What is freed is no longer used, and the rest as before.
pub free-used_at :
    (x p total : ℕ) (bs : List Block)
    → 0 < p
    → Tiles 0 total bs
    → used_at x (free bs p) ≡ (if x == (p - 1) then 0 else used_at x bs)
unfolding free
free-used_at x p total bs h t =
    let given : (p == 0) ≡ false = ground (arith, h) in
    rw given (merged (mark (p - 1) bs) ∙ mark-used_at x (p - 1) 0 total bs t)
  where
    merged : (l : List Block) → used_at x (coalesce_all l) ≡ used_at x l
    merged [] = refl
    merged (b ∷ l) = coalesce-used_at x b l

-- The blocks of an answer of `place` use one more, at the pointer's offset.
abbrev Takes : ℕ → List Block → Option (ℕ × List Block) → Type 0
Takes x l none = Unit
Takes x l (some (p, r)) = (0 < p) × (used_at x r ≡ (if x == (p - 1) then 1 else 0) + used_at x l)

keep-Takes :
    (x : ℕ) (b : Block) (l : List Block) (r : Option (ℕ × List Block))
    → Takes x l r
    → Takes x (b ∷ l) (keep b r)
keep-Takes x b l none h = tt
keep-Takes x b l (some (p, r)) (h, e) = (h, omega (arith, e))

fits-Takes :
    (x size o e : ℕ) (b : Block) (l : List Block)
    → e < 2 ^ 64
    → Tiles o e (b ∷ l)
    → fits size b ≡ true
    → Takes x (b ∷ l) (some (add64 b.offset 1, split size b l))
unfolding split
fits-Takes x size o e b l w t f =
    let (opened, room) = fits-true size b f in
    let end = Tiles-le (o + b.size) e l t.2 in
    let ptr : add64 b.offset 1 ≡ b.offset + 1 = omega (arith, t.0, t.1, end, w) in
    let at : (x == (add64 b.offset 1 - 1)) ≡ (b.offset == x) = ground (arith, ptr) in
    elim (Bool-cases (ltb size b.size)) [
      | inl part ↦ rw part (omega (arith, ptr), ground (arith, at, opened))
      | inr whole ↦ rw whole (omega (arith, ptr), ground (arith, at, opened))
    ]

pub place-Takes :
    (x size o e : ℕ) (l : List Block) → e < 2 ^ 64 → Tiles o e l → Takes x l (place size l)
unfolding place
place-Takes x size o e [] w t = tt
place-Takes x size o e (b ∷ l) w t = elim (Bool-cases (fits size b)) [
  | inl large ↦ rw large (fits-Takes x size o e b l w t large)
  | inr small ↦
      rw small (keep-Takes x b l (place size l) (place-Takes x size (o + b.size) e l w t.2))
]

-- What is allocated is used once, and was not before.
pub allocate-used_at :
    (x size total p : ℕ) (bs : List Block)
    → total < 2 ^ 64
    → Tiles 0 total bs
    → (allocate bs size).0 ≡ some p
    → (0 < p) × (used_at x (allocate bs size).1 ≡ (if x == (p - 1) then 1 else 0) + used_at x bs)
unfolding allocate
allocate-used_at x size total p bs w t e =
    answered (place size bs) (place-Takes x size 0 total bs w t) e
  where
    answered :
        (r : Option (ℕ × List Block))
        → Takes x bs r
        → (outcome bs r).0 ≡ some p
        → (0 < p) × (used_at x (outcome bs r).1 ≡ (if x == (p - 1) then 1 else 0) + used_at x bs)
    answered none h q = ground (arith, q)
    answered (some (y, r)) h q =
        let same : y ≡ p = cc q in
        subst (λ z. (0 < z) × (used_at x r ≡ (if x == (z - 1) then 1 else 0) + used_at x bs)) same h
