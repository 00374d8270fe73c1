-- ===== src/Sched/PriorityQueue/Drain.antt =====
-- Policies that hold their processes in a priority queue and pick one with the fewest ticks: what
-- they give of processes that are added and then picked.
use memory_allocator.Base.{
  ℕ, zero, suc, ◌+◌, ◌≤◌, ◌≡◌, refl, sym, ap, ◌∙◌, ltb, ◌==◌, ==→eq, not, Bool, true, false,
  Bool-cases, inl, inr, Option, none, some, List, [], ◌∷◌, All, length, arith,
}
use memory_allocator.Sched.Process.{Process}
use memory_allocator.Sched.PriorityQueue.{Entry, one_if, count_if}

-- How many entries have fewer ticks than so many.
abbrev pub fewer : ℕ → List Entry → ℕ
fewer ticks = count_if (λ e. ltb e.1 ticks)

-- No entry has fewer ticks than `a`, and `a` is not below `b`: none has fewer than `b`.
pub fewer-least : (a b : ℕ) (l : List Entry) → fewer a l ≡ 0 → ltb a b ≡ false → fewer b l ≡ 0
fewer-least a b [] e h = refl
fewer-least a b ((i, t) ∷ l) e h =
    let rest = fewer-least a b l (omega (arith, e)) h in ground (arith, e, h, rest)

pub count-true : (js : List ℕ) → count_if (λ j. true) js ≡ length js
count-true [] = refl
count-true (j ∷ js) = omega (arith, count-true js)

none_counted : (es : List Entry) → count_if (λ e. true) es ≡ 0 → es ≡ []
none_counted [] e = refl
none_counted (x ∷ es) e = absurd (omega (arith, e))

-- The entries whose ticks are not those of their processes.
abbrev pub stale : (ℕ → ℕ) → List Entry → ℕ
stale ticks = count_if (λ e. not (e.1 == ticks e.0))

stale-fewer :
    (ticks : ℕ → ℕ) (n : ℕ) (es : List Entry)
    → stale ticks es ≡ 0
    → count_if (λ e. ltb (ticks e.0) n) es ≡ fewer n es
stale-fewer ticks n [] h = refl
stale-fewer ticks n ((i, t) ∷ es) h =
    let rest = stale-fewer ticks n es (omega (arith, h)) in
    elim (Bool-cases (t == ticks i)) [
      | inl e ↦
          let same = ==→eq t (ticks i) e in omega (arith, rest, ap (λ k. one_if (ltb k n)) same)
      | inr e ↦ absurd (omega (arith, h, ap (λ b. one_if (not b)) e))
    ]

-- Each comes before those that have as many ticks or more.
abbrev pub InOrder : (ℕ → ℕ) → List ℕ → Type 0
InOrder ticks [] = Unit
InOrder ticks (i ∷ l) = All (λ j. ticks i ≤ ticks j) l × InOrder ticks l

none_fewer-All :
    (ticks : ℕ → ℕ) (n : ℕ) (l : List ℕ)
    → count_if (λ j. ltb (ticks j) n) l ≡ 0
    → All (λ j. n ≤ ticks j) l
none_fewer-All ticks n [] h = tt
none_fewer-All ticks n (j ∷ l) h = (ground (arith, h), none_fewer-All ticks n l (omega (arith, h)))

abbrev pub grow : Option ℕ → List ℕ → List ℕ
grow none l = []
grow (some i) l = i ∷ l

module _ {Q : Type 0} where
  -- Processes of a table are added in turn.
  abbrev pub add_all : (Q → ℕ → Process → Q) → (ℕ → Process) → Q → List ℕ → Q
  add_all add ps q [] = q
  add_all add ps q (j ∷ js) = add_all add ps (add q j (ps j)) js

  -- What is picked, for so many times or until nothing is.
  abbrev pub picks : (Q → Option ℕ × Q) → ℕ → Q → List ℕ
  picks pick zero q = []
  picks pick (suc n) q = let (o, rest) = pick q in grow o (picks pick n rest)

  module _ (entries : Q → List Entry) where
    -- What a pick may answer and leave, of the entries there were.
    abbrev pub IsShortest : List Entry → Option ℕ × Q → Type 0
    IsShortest before (none, q) = before ≡ []
    IsShortest before (some i, q) =
        (ticks : ℕ) × ((f : Entry → Bool)
          → count_if f before ≡ count_if f (entries q) + one_if (f (i, ticks)))
        × (fewer ticks before ≡ 0)

    pub add_all-count :
        (add : Q → ℕ → Process → Q) (ps : ℕ → Process)
        → ((q : Q) (i : ℕ) (p : Process) (f : Entry → Bool)
            → count_if f (entries (add q i p))
              ≡ count_if f (entries q) + one_if (f (i, p.burst_remaining)))
        → (q : Q) (js : List ℕ) (f : Entry → Bool)
        → count_if f (entries (add_all add ps q js))
          ≡ count_if f (entries q) + count_if (λ j. f (j, (ps j).burst_remaining)) js
    add_all-count add ps adds q [] f = omega arith
    add_all-count add ps adds q (j ∷ js) f =
        omega (arith, add_all-count add ps adds (add q j (ps j)) js f, adds q j (ps j) f)

    module _ (ticks : ℕ → ℕ) (pick : Q → Option ℕ × Q)
        (least : (q : Q) → IsShortest (entries q) (pick q)) where
      -- What `n` picks give of `n` entries.
      abbrev pub Drains : List Entry → List ℕ → Type 0
      Drains es l = ((f : ℕ → Bool) → count_if f l ≡ count_if (λ e. f e.0) es) × InOrder ticks l

      picked-Drains :
          (n : ℕ) (es : List Entry) (r : Option ℕ × Q)
          → stale ticks es ≡ 0
          → count_if (λ e. true) es ≡ suc n
          → IsShortest es r
          → (stale ticks (entries r.1) ≡ 0
              → count_if (λ e. true) (entries r.1) ≡ n
              → Drains (entries r.1) (picks pick n r.1))
          → Drains es (grow r.0 (picks pick n r.1))
      picked-Drains n es (none, q) h size e after =
          absurd (omega (arith, size, ap (count_if (λ e. true)) e))
      picked-Drains n es (some i, q) h size (t, counts, nothing) after =
          let held = counts (λ e. not (e.1 == ticks e.0)) in
          let own : t ≡ ticks i = ground (arith, held, h) in
          let (same, order) =
            after (omega (arith, held, h)) (omega (arith, counts (λ e. true), size)) in
          let before = stale-fewer ticks t es h ∙ nothing in
          let behind : count_if (λ j. ltb (ticks j) (ticks i)) (picks pick n q) ≡ 0 =
            ap (λ k. count_if (λ j. ltb (ticks j) k) (picks pick n q)) (sym own)
            ∙ same (λ j. ltb (ticks j) t)
            ∙ omega (arith, before, counts (λ e. ltb (ticks e.0) t)) in
          (
            λ f. omega (arith, same f, counts (λ e. f e.0)),
            (none_fewer-All ticks (ticks i) (picks pick n q) behind, order),
          )

      pub picks-Drains :
          (n : ℕ) (q : Q)
          → stale ticks (entries q) ≡ 0
          → count_if (λ e. true) (entries q) ≡ n
          → Drains (entries q) (picks pick n q)
      picks-Drains zero q h size =
          (λ f. sym (ap (count_if (λ e. f e.0)) (none_counted (entries q) size)), tt)
      picks-Drains (suc n) q h size =
          picked-Drains n (entries q) (pick q) h size (least q) (picks-Drains n (pick q).1)
