-- ===== src/Sim/FirstFit.antt =====
-- memlab/sim/contiguous_demo.cpp, Block and FirstFitAllocator. A pointer is the offset of its block
-- plus one, and `none` is the null pointer that `Allocate` returns.
pub mod Tiling
pub mod Restore
mod Tests
use memory_allocator.Base.{
  ℕ, ◌+◌, ◌-◌, ltb, leb, ◌==◌, if◌then◌else◌, ◌&&◌, Bool, true, false, Option, none, some, List, [],
  ◌∷◌,
}
use memory_allocator.Base.Bits.{add64}

pub record Block : Type 0 where
  pub offset : ℕ
  pub size : ℕ
  pub free : Bool

unfoldable pub construct : ℕ → List Block
construct total = record { offset = 0; size = total; free = true } ∷ []

abbrev pub fits : ℕ → Block → Bool
fits size b = b.free && leb size b.size

-- The block that is handed out, and what is left of it in front of the others.
unfoldable pub split : ℕ → Block → List Block → List Block
split size b rest =
    if ltb size b.size
    then record b { size = size; free = false }
      ∷ record { offset = add64 b.offset size; size = b.size - size; free = true }
      ∷ rest
    else record b { free = false } ∷ rest

abbrev pub keep : Block → Option (ℕ × List Block) → Option (ℕ × List Block)
keep b none = none
keep b (some (p, r)) = some (p, b ∷ r)

-- The loop of `Allocate`.
unfoldable pub place : ℕ → List Block → Option (ℕ × List Block)
unfolding split
place size [] = none
place size (b ∷ rest) =
    let later = place size rest in
    if fits size b then some (add64 b.offset 1, split size b rest) else keep b later

abbrev pub outcome : List Block → Option (ℕ × List Block) → Option ℕ × List Block
outcome bs none = (none, bs)
outcome bs (some (p, r)) = (some p, r)

unfoldable pub allocate : List Block → ℕ → Option ℕ × List Block
unfolding place
allocate bs size = outcome bs (place size bs)

-- The first loop of `Free`: the first block of the offset becomes free.
unfoldable pub mark : ℕ → List Block → List Block
mark offset [] = []
mark offset (b ∷ rest) =
    let later = mark offset rest in
    if b.offset == offset then record b { free = true } ∷ rest else b ∷ later

-- The second loop, from a block on: it takes in its neighbour as long as both are free.
unfoldable pub coalesce : Block → List Block → List Block
coalesce b [] = b ∷ []
coalesce b (c ∷ rest) =
    let merged = coalesce (record b { size = add64 b.size c.size }) rest in
    let moved = coalesce c rest in if b.free && c.free then merged else b ∷ moved

abbrev pub coalesce_all : List Block → List Block
coalesce_all [] = []
coalesce_all (b ∷ rest) = coalesce b rest

unfoldable pub free : List Block → ℕ → List Block
unfolding mark coalesce
free bs ptr = if ptr == 0 then bs else coalesce_all (mark (ptr - 1) bs)
