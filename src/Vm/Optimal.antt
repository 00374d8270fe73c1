-- ===== src/Vm/Optimal.antt =====
-- memlab/include/memlab/vm/replacement/optimal.hpp. `_loaded` is a list in the set's order of
-- iteration; `*_loaded.begin()` of an empty set reads no element: none.
pub mod Furthest
mod Tests
use memory_allocator.Base.{
  ℕ, zero, suc, ◌+◌, ◌-◌, ◌^◌, ltb, ◌==◌, if◌then◌else◌, contains, Option, none, some, List, [],
  ◌∷◌, length,
}
use memory_allocator.Memory.FreeList.Segments.{remove}

pub record Optimal : Type 0 where
  pub trace : List ℕ
  pub next_use : List ℕ
  pub pos : ℕ
  pub loaded : List ℕ

-- `std::numeric_limits<size_t>::max()`
abbrev pub never : ℕ
never = 2 ^ 64 - 1

abbrev pub or_never : Option ℕ → ℕ
or_never none = never
or_never (some i) = i

-- The constructor's loop from the end of the trace: the entries from index `i` on, and the map
-- `last` of the smallest index seen.
unfoldable pub next_uses : ℕ → List ℕ → List ℕ × (ℕ → Option ℕ)
next_uses i [] = ([], λ _. none)
next_uses i (x ∷ rest) =
    let (ns, last) = next_uses (suc i) rest in
    (or_never (last x) ∷ ns, λ f. if f == x then some i else last f)

unfoldable pub construct : List ℕ → Optimal
unfolding next_uses
construct trace = record { trace = trace; next_use = (next_uses 0 trace).0; pos = 0; loaded = [] }

unfoldable pub on_load : Optimal → ℕ → Optimal
on_load p frame = record p {
  loaded = if contains p.loaded frame then p.loaded else frame ∷ p.loaded;
}

unfoldable pub on_access : Optimal → ℕ → Optimal
on_access p frame = p

abbrev advance : Optimal → Optimal
advance p = if ltb p.pos (length p.trace) then record p { pos = p.pos + 1 } else p

-- The inner loop of `victim`: the first index from `pos` on at which the frame is used. The list
-- is the trace from index `j` on.
unfoldable pub use_from : ℕ → ℕ → ℕ → List ℕ → ℕ
use_from pos f j [] = never
use_from pos f j (x ∷ rest) =
    let later = use_from pos f (suc j) rest in
    if ltb j pos then later else if x == f then j else later

-- The outer loop, with the best frame and distance so far.
unfoldable pub furthest : Optimal → ℕ → ℕ → List ℕ → ℕ
unfolding use_from
furthest p best_frame best_dist [] = best_frame
furthest p best_frame best_dist (f ∷ rest) =
    let next = use_from p.pos f 0 p.trace in
    let closer = ltb best_dist next in
    furthest p (if closer then f else best_frame) (if closer then next else best_dist) rest

first_of : List ℕ → (ℕ → ℕ) → Option ℕ
first_of [] g = none
first_of (f ∷ rest) g = some (g f)

unfoldable pub victim : Optimal → Option ℕ
unfolding furthest first_of
victim p = first_of p.loaded λ first. furthest p first 0 p.loaded

unfoldable pub on_evict : Optimal → ℕ → Optimal
on_evict p frame = record p { loaded = remove frame p.loaded }
