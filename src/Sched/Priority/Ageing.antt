-- ===== src/Sched/Priority/Ageing.antt =====
-- The first loop of ageing empties the queue.
use memory_allocator.Base.{ℕ, zero, suc, ◌≡◌, refl, ap, ◌∙◌, Bool, List, [], ◌∷◌, length, arith}
use memory_allocator.Sched.Priority.{
  Entry, Heaps, PriorityScheduler, later, front, drop_last, pop, drained, drain,
}

length-drop_last : (e : Entry) (l : List Entry) → suc (length (drop_last (e ∷ l))) ≡ suc (length l)
length-drop_last e [] = refl
length-drop_last e (d ∷ l) = ap suc (length-drop_last d l)

shorter : (l : List Entry) (n : ℕ) → length l ≡ suc n → length (drop_last l) ≡ n
shorter [] n h = ground (arith, h)
shorter (e ∷ l) n h = omega (arith, h, length-drop_last e l)

module _ (heaps : Heaps)
    (same_length : (before : Entry → Entry → Bool) (l : List Entry)
      → length (heaps.pop_heap before l) ≡ length l) where
  taken :
      (s : PriorityScheduler) (n : ℕ) (l : List Entry) (r : List Entry × PriorityScheduler)
      → length l ≡ suc n
      → (length r.0 ≡ n) × (length r.1.heap ≡ 0)
      → (length (drained heaps s (front l) r).0 ≡ suc n)
        × (length (drained heaps s (front l) r).1.heap ≡ 0)
  taken s n [] r e h = ground (arith, e)
  taken s n (x ∷ l) r e h = (ap suc h.0, h.1)

  -- As many rounds as there are entries take all of them out, since `pop_heap` keeps their number:
  -- the queue is empty, and as many entries are kept for the second loop.
  drain-empties :
      (n : ℕ) (s : PriorityScheduler)
      → length s.heap ≡ n
      → (length (drain heaps n s).0 ≡ n) × (length (drain heaps n s).1.heap ≡ 0)
  unfolding drain pop
  drain-empties zero s h = (refl, h)
  drain-empties (suc n) s h =
      let left =
        shorter (heaps.pop_heap (later s.aged) s.heap) n (same_length (later s.aged) s.heap ∙ h) in
      taken s n s.heap (drain heaps n (pop heaps s)) h (drain-empties n (pop heaps s) left)
