-- ===== src/Vm/Fifo/Order.antt =====
-- Which frame FIFOReplacement picks.
use memory_allocator.Base.{
  ℕ, ◌≡◌, refl, ◌==◌, ==_self, if◌then◌else◌, Bool, true, false, Bool-cases, inl, inr, Option, none,
  some, List, [], ◌∷◌, ◌++◌,
}
use memory_allocator.Vm.Fifo.{Fifo, on_load, victim, on_evict, skip_evicted, front}

-- The first entry of a list that passes the test.
abbrev pub first_of : (ℕ → Bool) → List ℕ → Option ℕ
first_of p [] = none
first_of p (f ∷ rest) = if p f then some f else first_of p rest

front-skip : (p : ℕ → Bool) (order : List ℕ) → front (skip_evicted p order) ≡ first_of p order
unfolding skip_evicted
front-skip p [] = refl
front-skip p (f ∷ rest) = elim (Bool-cases (p f)) [
  | inl e ↦ rw e
  | inr e ↦ rw e (front-skip p rest)
]

front-skip_used :
    (p : ℕ → Bool) (order : List ℕ) {v : ℕ}
    → front (skip_evicted p order) ≡ some v
    → (rest : List ℕ) × (skip_evicted p order ≡ v ∷ rest) × (p v ≡ true)
unfolding skip_evicted
front-skip_used p [] h = cc h
front-skip_used p (f ∷ rest) {v} h = elim (Bool-cases (p f)) [
  | inl e ↦ let same : f ≡ v = cc (rw e at h) in (rest, rw (e, same), rw (← same) e)
  | inr e ↦ let (r, a, b) = front-skip_used p rest (rw e at h) in (r, rw e a, b)
]

-- `victim` picks the frame in use whose entry is the oldest, and keeps the set of frames in use.
pub victim_is_oldest :
    (p : Fifo) → ((victim p).0 ≡ first_of p.in_use p.order) × ((victim p).1.in_use ≡ p.in_use)
unfolding victim
victim_is_oldest p = (front-skip p.in_use p.order, refl)

-- Evicting the victim and loading a page into the same frame leaves the frame's old entry in
-- front: whatever the state, the next victim is that frame again.
pub victim_repeats :
    (p : Fifo) {v : ℕ}
    → (victim p).0 ≡ some v
    → (victim (on_load (on_evict (victim p).1 v) v)).0 ≡ some v
unfolding victim on_load on_evict
victim_repeats p {v} h =
    let (rest, a, b) = front-skip_used p.in_use p.order h in
    rw (
      a,
      front-skip (λ f. if f == v then true else (if f == v then false else p.in_use f))
          (v ∷ rest ++ v ∷ []),
      ==_self v,
    )
