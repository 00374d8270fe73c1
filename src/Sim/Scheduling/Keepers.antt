-- ===== src/Sim/Scheduling/Keepers.antt =====
-- A policy that serves in order of arrival hands out what it was given.
use memory_allocator.Base.{ℕ, ◌+◌, ◌≡◌, sym, ap, ap₂, ◌∙◌, List, [], ◌∷◌, ◌++◌, arith}
use memory_allocator.Base.Count.{count, count-append}
use memory_allocator.Sched.Policy.{Scheduler, pick_front, IsInOrder}
use memory_allocator.Sim.Scheduling.{blind}
use memory_allocator.Sim.Scheduling.Places.{one, released, IsKeeper}

pub count-pick_front :
    (l : List ℕ) (j : ℕ) → count j l ≡ count j (pick_front l).1 + released (pick_front l).0 j
count-pick_front [] j = omega arith
count-pick_front (p ∷ l) j = omega arith

pub count-snoc : (l : List ℕ) (i j : ℕ) → count j (l ++ i ∷ []) ≡ count j l + one i j
count-snoc l i j = omega (arith, count-append j l (i ∷ []))

abbrev pub in_order-IsKeeper :
    {S : Type 0} (sched : Scheduler S) → IsInOrder sched → IsKeeper (blind sched)
in_order-IsKeeper sched order = record {
  held = λ s j. count j (order.waiting s);
  adds = λ s i p j. ap (count j) (order.adds_behind s i) ∙ count-snoc (order.waiting s) i j;
  picks = λ s j.
      let (picked, rest) = order.picks_front s in
      count-pick_front (order.waiting s) j
      ∙ ap₂ (λ l o. count j l + released o j) (sym rest) (sym picked);
}
