-- ===== src/Sim/FirstFit/Restore.antt =====
-- Freeing what was just allocated restores the blocks; what is granted, and what is refused.
use memory_allocator.Base.{
  ℕ, ◌+◌, ◌-◌, ◌^◌, ◌<◌, ◌≡◌, ◌↔◌, refl, sym, ap, ap₂, subst, ◌∙◌, ltb, ◌==◌, ◌&&◌, true, false,
  Bool-cases, inl, inr, Option, none, some, List, [], ◌∷◌, All, arith,
}
use memory_allocator.Base.Bits.{add64}
use memory_allocator.Sim.FirstFit.{
  Block, fits, split, keep, place, outcome, allocate, mark, coalesce, coalesce_all, free,
}
use memory_allocator.Sim.FirstFit.Tiling.{Tiles, Apart, Tiles-le, fits-true}

-- Blocks with no two free neighbours stay as they are.
coalesce-Apart_id : (b : Block) (l : List Block) → Apart b.free l → coalesce b l ≡ b ∷ l
unfolding coalesce
coalesce-Apart_id b [] a = refl
coalesce-Apart_id b (c ∷ l) a = rw a.0 (ap (λ r. b ∷ r) (coalesce-Apart_id c l a.1))

-- Marking the offset `x` and merging gives the block list back, and its first piece is as free as
-- the first block was.
Restores : ℕ → Block → List Block → List Block → Type 0
Restores x b l r =
    (c : Block) × (q : List Block) × (mark x r ≡ c ∷ q) × (c.free ≡ b.free) × (coalesce c q ≡ b ∷ l)

-- The same of an answer of `place` for the blocks `b ∷ l`, whose pointer lies at `o` or behind.
abbrev Answer : ℕ → Block → List Block → Option (ℕ × List Block) → Type 0
Answer o b l none = Unit
Answer o b l (some (p, r)) = (o < p) × Restores (p - 1) b l r

split-Restores :
    (size : ℕ) (o e : ℕ) (b : Block) (l : List Block)
    → e < 2 ^ 64
    → Tiles o e (b ∷ l)
    → Apart b.free l
    → fits size b ≡ true
    → Restores o b l (split size b l)
unfolding Restores split mark coalesce
split-Restores size o e b l w t a f =
    let (opened, room) = fits-true size b f in
    let end = Tiles-le (o + b.size) e l t.2 in
    let here : (b.offset == o) ≡ true = ground (arith, t.0) in
    let kept = coalesce-Apart_id b l a in
    elim (Bool-cases (ltb size b.size)) [
      | inl part ↦
          let sum : add64 size (b.size - size) ≡ b.size = omega (arith, room, end, w) in
          rw (part, here)
            (
              record b { size = size; free = true },
              record { offset = add64 b.offset size; size = b.size - size; free = true } ∷ l,
              refl,
              sym opened,
              ap₂ (λ s f. coalesce (record { offset = b.offset; size = s; free = f }) l) sum
                    (sym opened)
                  ∙ kept,
            )
      | inr whole ↦
          rw (whole, here)
            (
              record b { free = true },
              l,
              refl,
              sym opened,
              ap (λ f. coalesce (record b { free = f }) l) (sym opened) ∙ kept,
            )
    ]

fits-Restores :
    (size : ℕ) (o e : ℕ) (b : Block) (l : List Block)
    → e < 2 ^ 64
    → Tiles o e (b ∷ l)
    → Apart b.free l
    → fits size b ≡ true
    → Answer o b l (some (add64 b.offset 1, split size b l))
fits-Restores size o e b l w t a f =
    let end = Tiles-le (o + b.size) e l t.2 in
    let ptr : add64 b.offset 1 ≡ o + 1 = omega (arith, t.0, t.1, end, w) in
    (
      omega (arith, ptr),
      subst (λ x. Restores x b l (split size b l)) (omega (arith, ptr))
          (split-Restores size o e b l w t a f),
    )

keep-Restores :
    (o e : ℕ) (b d : Block) (l : List Block) (r : Option (ℕ × List Block))
    → Tiles o e (b ∷ d ∷ l)
    → b.free && d.free ≡ false
    → Answer (o + b.size) d l r
    → Answer o b (d ∷ l) (keep b r)
unfolding Restores mark coalesce
keep-Restores o e b d l none t a h = _
keep-Restores o e b d l (some (p, r)) t a (above, (c, q, marked, as_free, merged)) =
    let away : (b.offset == (p - 1)) ≡ false = ground (arith, t.0, t.1, above) in
    let apart : (b.free && c.free) ≡ false = ap (λ f. b.free && f) as_free ∙ a in
    (
      omega (arith, above),
      (b, c ∷ q, rw away (ap (λ m. b ∷ m) marked), refl, rw apart (ap (λ m. b ∷ m) merged)),
    )

place-Restores :
    (size : ℕ) (o e : ℕ) (b : Block) (l : List Block)
    → e < 2 ^ 64
    → Tiles o e (b ∷ l)
    → Apart b.free l
    → Answer o b l (place size (b ∷ l))
unfolding place
place-Restores size o e b [] w t a = elim (Bool-cases (fits size b)) [
  | inl large ↦ rw large (fits-Restores size o e b [] w t a large)
  | inr small ↦ rw small _
]
place-Restores size o e b (d ∷ l) w t a =
    let later = place-Restores size (o + b.size) e d l w t.2 a.1 in
    elim (Bool-cases (fits size b)) [
      | inl large ↦ rw large (fits-Restores size o e b (d ∷ l) w t a large)
      | inr small ↦ rw small (keep-Restores o e b d l (place size (d ∷ l)) t a.0 later)
    ]

-- In a memory of less than 2^64 bytes whose blocks tile it with no two free neighbours: freeing the
-- block that was just allocated restores the blocks, whatever the size.
pub free-allocate :
    (total size : ℕ) (bs : List Block) {p : ℕ}
    → total < 2 ^ 64
    → Tiles 0 total bs
    → Apart false bs
    → (allocate bs size).0 ≡ some p
    → free (allocate bs size).1 p ≡ bs
unfolding allocate free Restores
free-allocate total size [] w t a e = ground (arith, e)
free-allocate total size (b ∷ l) {p} w t a e =
    released (place size (b ∷ l)) (place-Restores size 0 total b l w t a.1) e
  where
    released :
        (r : Option (ℕ × List Block))
        → Answer 0 b l r
        → (outcome (b ∷ l) r).0 ≡ some p
        → free (outcome (b ∷ l) r).1 p ≡ b ∷ l
    released none h q = ground (arith, q)
    released (some (x, r)) (above, (c, m, marked, _, merged)) q =
        let same : x ≡ p = cc q in
        let given : (x == 0) ≡ false = ground (arith, above) in
        subst (λ z. free r z ≡ b ∷ l) same (rw given (ap coalesce_all marked ∙ merged))

abbrev Small : ℕ → Block → Type 0
Small size b = b.free ≡ true → b.size < size

place-none : (size : ℕ) (bs : List Block) → (place size bs ≡ none) ↔ All (Small size) bs
unfolding place
place-none size [] = (λ e. tt, λ h. refl)
place-none size (b ∷ l) =
    let later = place-none size l in
    elim (Bool-cases (fits size b)) [
      | inl large ↦
          let (opened, room) = fits-true size b large in
          (rw large (λ e. ground (arith, e)), λ h. absurd (omega (arith, h.0 opened, room)))
      | inr small ↦ (
        rw small (λ e. (λ f. ground (arith, small, f), later.0 (keep-none (place size l) e))),
        λ h. rw small (ap (keep b) (later.1 h.1)),
      )
    ]
  where
    keep-none : (r : Option (ℕ × List Block)) → keep b r ≡ none → r ≡ none
    keep-none none e = refl
    keep-none (some r) e = ground (arith, e)

-- A request is refused exactly when every free block is smaller, and then changes nothing.
pub allocate-none :
    (size : ℕ) (bs : List Block)
    → (((allocate bs size).0 ≡ none) ↔ All (λ b. b.free ≡ true → b.size < size) bs)
      × ((allocate bs size).0 ≡ none → (allocate bs size).1 ≡ bs)
unfolding allocate
allocate-none size bs =
    let law = place-none size bs in
    (
      (λ e. law.0 (refused (place size bs) e).0, λ h. ap (λ r. (outcome bs r).0) (law.1 h)),
      λ e. (refused (place size bs) e).1,
    )
  where
    refused :
        (r : Option (ℕ × List Block))
        → (outcome bs r).0 ≡ none
        → (r ≡ none) × ((outcome bs r).1 ≡ bs)
    refused none e = (refl, refl)
    refused (some r) e = ground (arith, e)
