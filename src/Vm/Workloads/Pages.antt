-- ===== src/Vm/Workloads/Pages.antt =====
-- The pages of the generated traces, and how many there are.
use memory_allocator.Base.{
  ℕ, zero, suc, ◌+◌, ◌*◌, ◌/◌, ◌%◌, ◌^◌, ◌≤◌, ◌<◌, ◌≡◌, refl, ap, subst, ltb, ◌==◌, ◌&&◌, Bool,
  true, false, Bool-cases, inl, inr, some, List, All, All-append, length, length-append, arith,
}
use memory_allocator.Base.Random.{Random, RandomLaws}
use memory_allocator.Sched.Process.{sub32}
use memory_allocator.Vm.Workloads.{
  pages_from, gen_sequential, uniform_from, gen_uniform, shifted, page_of, locality_from,
  gen_locality,
}

-- A trace of `n` pages below `pages`.
abbrev pub IsTrace : ℕ → ℕ → List ℕ → Type 0
IsTrace n pages l = (length l ≡ n) × All (λ p. p < pages) l

pages_from-IsTrace : (left p pages : ℕ) → left + p ≤ pages → IsTrace left pages (pages_from left p)
unfolding pages_from
pages_from-IsTrace zero p pages h = (refl, tt)
pages_from-IsTrace (suc left) p pages h =
    let rest = pages_from-IsTrace left (suc p) pages (omega (arith, h)) in
    (ap suc rest.0, (omega (arith, h), rest.1))

gen_sequential-IsTrace : (pages reps : ℕ) → IsTrace (reps * pages) pages (gen_sequential pages reps)
unfolding gen_sequential
gen_sequential-IsTrace pages zero = (omega arith, tt)
gen_sequential-IsTrace pages (suc reps) =
    let first = pages_from-IsTrace pages 0 pages (omega arith) in
    let rest = gen_sequential-IsTrace pages reps in
    (
      omega
          (arith, length-append (pages_from pages 0) (gen_sequential pages reps), first.0, rest.0),
      All-append (λ p. p < pages) (pages_from pages 0) (gen_sequential pages reps) first.1 rest.1,
    )

module _ {G : Type 0} (random : Random G) (laws : RandomLaws random) where
  uniform_from-IsTrace :
      (left last : ℕ) (g : G) → IsTrace left (suc last) (uniform_from random left last g)
  unfolding uniform_from
  uniform_from-IsTrace zero last g = (refl, tt)
  uniform_from-IsTrace (suc left) last g =
      let rest = uniform_from-IsTrace left last (random.uniform 0 last g).1 in
      (ap suc rest.0, (omega (arith, (laws.in_range 0 last g (omega arith)).1), rest.1))

  module _ (total ws quarter : ℕ) (positive : 0 < ws) (fits : ws ≤ total)
      (small : total < 2 ^ 32) where
    shifted-le :
        (i start : ℕ) (g : G)
        → start + ws ≤ total
        → (shifted random total ws quarter i start g).0 + ws ≤ total
    unfolding shifted
    shifted-le i start g h = elim (Bool-cases (i % quarter == 0)) [
      | inl now ↦
          rw now (omega (arith, (laws.in_range 0 (sub32 total ws) g (omega arith)).1, fits, small))
      | inr later ↦ rw later h
    ]

    page_of-lt :
        (start : ℕ) (r : Bool × G)
        → start + ws ≤ total
        → (page_of random total ws start r).0 < total
    unfolding page_of
    page_of-lt start (true, g) h =
        omega (arith, (laws.in_range 0 (sub32 ws 1) g (omega arith)).1, h, positive, small)
    page_of-lt start (false, g) h =
        omega (arith, (laws.in_range 0 (sub32 total 1) g (omega arith)).1, h, positive, small)

    locality_from-IsTrace :
        (left i start : ℕ) (g : G)
        → start + ws ≤ total
        → IsTrace left total (locality_from random total ws quarter left i start g)
    unfolding locality_from
    locality_from-IsTrace zero i start g h = (refl, tt)
    locality_from-IsTrace (suc left) i start g h =
        let s = shifted random total ws quarter i start g in
        let moved = shifted-le i start g h in
        let r = random.below_nine_tenths s.1 in
        let rest = locality_from-IsTrace left (suc i) s.0 (page_of random total ws s.0 r).1 moved in
        (ap suc rest.0, (page_of-lt s.0 r moved, rest.1))

  -- With distributions that answer between their ends, fewer than 2^32 pages, a working set of at
  -- least one of them and at most all, and at least four accesses: each of the three generators
  -- returns a trace of as many accesses as it was asked for, of which each is to one of the pages.
  pub generators-IsTrace :
      (pages n ws reps seed : ℕ)
      → 0 < ws
      → ws ≤ pages
      → pages < 2 ^ 32
      → 4 ≤ n
      → IsTrace (reps * pages) pages (gen_sequential pages reps)
        × IsTrace n pages (gen_uniform random pages n seed)
        × ((l : List ℕ) × (gen_locality random pages n ws seed ≡ some l) × IsTrace n pages l)
  unfolding gen_uniform gen_locality
  generators-IsTrace pages n ws reps seed positive fits small enough =
      let last : suc (sub32 pages 1) ≡ pages = omega (arith, positive, fits, small) in
      let divides : (ltb 0 n && n / 4 == 0) ≡ false = ground (arith, enough) in
      (
        gen_sequential-IsTrace pages reps,
        subst (λ t. IsTrace n t (uniform_from random n (sub32 pages 1) (random.seeded seed))) last
            (uniform_from-IsTrace n (sub32 pages 1) (random.seeded seed)),
        (
          locality_from random pages ws (n / 4) n 0 0 (random.seeded seed),
          rw divides refl,
          locality_from-IsTrace pages ws (n / 4) positive fits small n 0 0 (random.seeded seed)
              (omega (arith, fits)),
        ),
      )
