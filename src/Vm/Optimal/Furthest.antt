-- ===== src/Vm/Optimal/Furthest.antt =====
-- The victim's next use is the furthest, and what the next uses are.
use memory_allocator.Base.{
  ℕ, zero, suc, ◌+◌, ◌≤◌, ◌<◌, ◌≡◌, ◌≢◌, ◌⊎◌, refl, subst, ap, ◌∙◌, ltb, ltb→lt, ltb→ge, ◌==◌,
  ==_self, ==→eq, ==→ne, true, Bool-cases, contains, inl, inr, some, List, [], ◌∷◌, get_elem?,
  arith,
}
use memory_allocator.Vm.Optimal.{never, Optimal, use_from, first_of, furthest, victim}

module _ (p : Optimal) where
  -- The next use of a frame from the cursor on.
  abbrev next_of : ℕ → ℕ
  next_of f = use_from p.pos f 0 p.trace

  furthest_lem :
      (best dist : ℕ) (l : List ℕ)
      → dist ≤ next_of best
      → let v = furthest p best dist l in
        ((contains (best ∷ l) v) ≡ true)
        × (dist ≤ next_of v)
        × ((g : ℕ) → contains l g ≡ true → next_of g ≤ next_of v)
  unfolding furthest
  furthest_lem best dist [] h = (rw (==_self best), h, λ g c. cc c)
  furthest_lem best dist (f ∷ rest) h = elim (Bool-cases (ltb dist (next_of f))) [
    | inl e ↦
        let (c, d, a) = furthest_lem f (next_of f) rest (omega arith) in
        rw e (
          ground (arith, c),
          omega (arith, d, ltb→lt dist (next_of f) e),
          λ g m. elim (Bool-cases (f == g)) [
            | inl q ↦ omega (arith, d, ap next_of (==→eq f g q))
            | inr q ↦ a g (rw q at m)
          ],
        )
    | inr e ↦
        let (c, d, a) = furthest_lem best dist rest h in
        rw e (
          ground (arith, c),
          d,
          λ g m. elim (Bool-cases (f == g)) [
            | inl q ↦ omega (arith, d, ltb→ge dist (next_of f) e, ap next_of (==→eq f g q))
            | inr q ↦ a g (rw q at m)
          ],
        )
  ]

  twice :
      (first v : ℕ) (rest : List ℕ)
      → contains (first ∷ first ∷ rest) v ≡ true
      → contains (first ∷ rest) v ≡ true
  twice first v rest c = ground arith

  victim_of :
      (l : List ℕ) {v : ℕ}
      → p.loaded ≡ l
      → victim p ≡ some v
      → (contains l v ≡ true) × ((g : ℕ) → contains l g ≡ true → next_of g ≤ next_of v)
  unfolding victim
  victim_of [] e h = cc (ap (λ l. first_of l (λ x. furthest p x 0 l)) e, h)
  victim_of (first ∷ rest) {v} e h =
      let same : furthest p first 0 (first ∷ rest) ≡ v =
        cc (ap (λ l. first_of l (λ x. furthest p x 0 l)) e, h) in
      let (c, d, a) = furthest_lem first 0 (first ∷ rest) (omega arith) in
      (
        rw (← same) (twice first (furthest p first 0 (first ∷ rest)) rest c),
        λ g m. subst (λ w. next_of g ≤ next_of w) same (a g m),
      )

-- When a frame is next used in a trace at or behind `pos`: the first such index, or never.
abbrev pub IsNextUse : ℕ → List ℕ → ℕ → ℕ → Type 0
IsNextUse pos trace f n =
    ((n ≡ never) × ((j : ℕ) → pos ≤ j → get_elem? trace j ≢ some f))
    ⊎ ((pos ≤ n)
        × (get_elem? trace n ≡ some f)
        × ((j : ℕ) → pos ≤ j → j < n → get_elem? trace j ≢ some f))

-- The same, for what is left of a trace from index `i` on.
abbrev From : ℕ → ℕ → List ℕ → ℕ → ℕ → Type 0
From pos i l f n =
    ((n ≡ never) × ((k : ℕ) → pos ≤ i + k → get_elem? l k ≢ some f))
    ⊎ ((d : ℕ) × (n ≡ i + d)
        × (pos ≤ n)
        × (get_elem? l d ≡ some f)
        × ((k : ℕ) → pos ≤ i + k → k < d → get_elem? l k ≢ some f))

-- An entry that is not looked for, or too early, in front.
From-skip :
    (pos i x f n : ℕ) (l : List ℕ)
    → (pos ≤ i → x ≢ f)
    → From pos (suc i) l f n
    → From pos i (x ∷ l) f n
From-skip pos i x f n l ne (inl (is, none_left)) = inl (is, none_there)
  where
    none_there : (k : ℕ) → pos ≤ i + k → get_elem? (x ∷ l) k ≢ some f
    none_there zero h e = ne (omega (arith, h)) (cc e)
    none_there (suc k) h e = none_left k (omega (arith, h)) e
From-skip pos i x f n l ne (inr (d, is, h, at, before)) =
    inr (suc d, omega (arith, is), h, at, none_before)
  where
    none_before : (k : ℕ) → pos ≤ i + k → k < suc d → get_elem? (x ∷ l) k ≢ some f
    none_before zero h b e = ne (omega (arith, h)) (cc e)
    none_before (suc k) h b e = before k (omega (arith, h)) (omega (arith, b)) e

use_from-From : (pos f i : ℕ) (l : List ℕ) → From pos i l f (use_from pos f i l)
unfolding use_from
use_from-From pos f i [] = inl (refl, λ k h e. ground (arith, e))
use_from-From pos f i (x ∷ l) =
    let later = use_from-From pos f (suc i) l in
    elim (Bool-cases (ltb i pos)) [
      | inl early ↦
          let before = ltb→lt i pos early in
          rw early (
            From-skip pos i x f (use_from pos f (suc i) l) l
              (λ h. absurd (omega (arith, before, h))) later)
      | inr now ↦
          let reached = ltb→ge i pos now in
          rw now elim (Bool-cases (x == f)) [
            | inl same ↦ rw same (
                inr (
                  0,
                  omega arith,
                  reached,
                  ap some (==→eq x f same),
                  λ k h b. absurd (omega (arith, b)),
                ))
            | inr other ↦
                rw other
                  (From-skip pos i x f (use_from pos f (suc i) l) l (λ h. ==→ne x f other) later)
          ]
    ]

use_from-IsNextUse : (pos f : ℕ) (trace : List ℕ) → IsNextUse pos trace f (use_from pos f 0 trace)
use_from-IsNextUse pos f trace = whole (use_from pos f 0 trace) (use_from-From pos f 0 trace)
  where
    whole : (n : ℕ) → From pos 0 trace f n → IsNextUse pos trace f n
    whole n (inl (is, none_left)) = inl (is, λ j h. none_left j (omega (arith, h)))
    whole n (inr (d, is, h, at, before)) = inr (
      h,
      ap (get_elem? trace) (omega (arith, is)) ∙ at,
      λ j g b. before j (omega (arith, g)) (omega (arith, b, is)),
    )

-- The victim is a loaded frame, and no loaded frame is next used further ahead than it is, where a
-- frame's next use is the first index at or behind the cursor at which the trace has the frame, or
-- the largest index there can be if there is none.
pub victim_is_furthest :
    (p : Optimal) {v : ℕ}
    → victim p ≡ some v
    → (contains p.loaded v ≡ true)
      × ((n : ℕ) × IsNextUse p.pos p.trace v n
          × ((g : ℕ)
              → contains p.loaded g ≡ true
              → (k : ℕ) × IsNextUse p.pos p.trace g k × (k ≤ n)))
victim_is_furthest p {v} h =
    let (loaded, furthest_of) = victim_of p p.loaded refl h in
    (
      loaded,
      (
        next_of p v,
        use_from-IsNextUse p.pos v p.trace,
        λ g c. (next_of p g, use_from-IsNextUse p.pos g p.trace, furthest_of g c),
      ),
    )
