-- ===== src/Vm/Lru.antt =====
-- memlab/include/memlab/vm/replacement/lru.hpp. The list has the most recently used frame in
-- front. `_map` gives of each key the first node of that frame, so its keys are a list and its
-- values the first occurrences. `victim` of an empty list reads no entry: none.
pub mod Recency
mod Tests
use memory_allocator.Base.{
  ℕ, ◌==◌, if◌then◌else◌, Bool, contains, Option, none, some, List, [], ◌∷◌,
}
use memory_allocator.Memory.FreeList.Segments.{remove}

pub record Lru : Type 0 where
  pub list : List ℕ
  pub keys : List ℕ

unfoldable pub empty : Lru
empty = record { list = []; keys = [] }

unfoldable pub on_load : Lru → ℕ → Lru
on_load p frame = record {
  list = frame ∷ p.list;
  keys = if contains p.keys frame then p.keys else frame ∷ p.keys;
}

-- `splice` moves the node of the frame to the front.
unfoldable pub on_access : Lru → ℕ → Lru
on_access p frame =
    if contains p.keys frame then record p { list = frame ∷ remove frame p.list } else p

abbrev pub back : List ℕ → Option ℕ
back [] = none
back (f ∷ []) = some f
back (f ∷ g ∷ rest) = back (g ∷ rest)

unfoldable pub victim : Lru → Option ℕ
victim p = back p.list

unfoldable pub on_evict : Lru → ℕ → Lru
on_evict p frame =
    if contains p.keys frame
    then record { list = remove frame p.list; keys = remove frame p.keys }
    else p
