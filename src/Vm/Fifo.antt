-- ===== src/Vm/Fifo.antt =====
-- memlab/include/memlab/vm/replacement/fifo.hpp, FIFOReplacement. The queue is a list, the oldest
-- entry first; `_in_use` is a test. `victim` on a queue that has become empty reads no entry: none.
pub mod Order
mod Tests
use memory_allocator.Base.{
  ℕ, ◌==◌, if◌then◌else◌, Bool, true, false, Option, none, some, List, [], ◌∷◌, ◌++◌,
}

pub record Fifo : Type 0 where
  pub order : List ℕ
  pub in_use : ℕ → Bool

unfoldable pub empty : Fifo
empty = record { order = []; in_use = λ _. false }

unfoldable pub on_load : Fifo → ℕ → Fifo
on_load p frame = record {
  order = p.order ++ frame ∷ [];
  in_use = λ f. if f == frame then true else p.in_use f;
}

unfoldable pub on_access : Fifo → ℕ → Fifo
on_access p frame = p

-- The loop drops entries from the front while they are not in use.
unfoldable pub skip_evicted : (ℕ → Bool) → List ℕ → List ℕ
skip_evicted in_use [] = []
skip_evicted in_use (f ∷ rest) =
    let later = skip_evicted in_use rest in if in_use f then f ∷ rest else later

abbrev pub front : List ℕ → Option ℕ
front [] = none
front (f ∷ rest) = some f

unfoldable pub victim : Fifo → Option ℕ × Fifo
unfolding skip_evicted
victim p = let order = skip_evicted p.in_use p.order in (front order, record p { order = order })

unfoldable pub on_evict : Fifo → ℕ → Fifo
on_evict p frame = record p { in_use = λ f. if f == frame then false else p.in_use f }
