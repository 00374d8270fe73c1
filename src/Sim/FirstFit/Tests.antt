-- ===== src/Sim/FirstFit/Tests.antt =====
-- The first-fit allocator on small inputs.
use memory_allocator.Base.{◌<◌, ◌≡◌, ◌↔◌, refl, true, false, none, some, List, [], ◌∷◌, All, arith}
use memory_allocator.Sim.FirstFit.{Block, construct, split, place, allocate, mark, coalesce, free}
use memory_allocator.Sim.FirstFit.Tiling.{Tiles, Apart, start, allocates, frees, blocks_tile}
use memory_allocator.Sim.FirstFit.Restore.{free-allocate, allocate-none}

-- Two blocks are handed out and the first is given back.
abbrev holed : List Block
holed = free (allocate (allocate (construct 8192) 512).1 1024).1 1

first_fit : (allocate holed 256).0 ≡ some 1
unfolding allocate place split free mark coalesce construct
first_fit = refl

-- An empty request makes two blocks at one offset.
empty_request :
    (allocate (construct 64) 0).1
    ≡ record { offset = 0; size = 0; free = false }
      ∷ record { offset = 0; size = 64; free = true }
      ∷ []
unfolding allocate place split construct
empty_request = refl

blocks_tile_example : Tiles 0 8192 holed × Apart false holed
blocks_tile_example =
    blocks_tile {total = 8192} (omega arith) (omega arith)
      (frees 1 (allocates 1024 (omega arith) (allocates 512 (omega arith) start)))

free-allocate_example : free (allocate holed 256).1 1 ≡ holed
unfolding allocate place split free mark coalesce construct
free-allocate_example =
    free-allocate 8192 256 holed (omega arith) (ground arith) (ground arith) refl

allocate-none_test :
    (((allocate holed 7000).0 ≡ none) ↔ All (λ b. b.free ≡ true → b.size < 7000) holed)
    × ((allocate holed 7000).0 ≡ none → (allocate holed 7000).1 ≡ holed)
allocate-none_test = allocate-none 7000 holed
