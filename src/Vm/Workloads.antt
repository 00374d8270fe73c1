-- ===== src/Vm/Workloads.antt =====
-- memlab/sim/vm_sim_main.cpp, the generators of page traces, over the random numbers of Base/Random.
-- Page numbers have 32 bits.
pub mod Pages
mod Tests
use memory_allocator.Base.{
  ℕ, zero, suc, ◌/◌, ◌%◌, ltb, ◌==◌, if◌then◌else◌, ◌&&◌, Bool, true, false, Option, none, some,
  List, [], ◌∷◌, ◌++◌,
}
use memory_allocator.Base.Random.{Random}
use memory_allocator.Sched.Process.{add32, sub32}

-- The inner loop, for `left` pages from `p` on.
unfoldable pub pages_from : ℕ → ℕ → List ℕ
pages_from zero p = []
pages_from (suc left) p = p ∷ pages_from left (suc p)

unfoldable pub gen_sequential : ℕ → ℕ → List ℕ
unfolding pages_from
gen_sequential pages zero = []
gen_sequential pages (suc reps) = pages_from pages 0 ++ gen_sequential pages reps

module _ {G : Type 0} (random : Random G) where
  -- The loop, for `left` pages.
  unfoldable pub uniform_from : ℕ → ℕ → G → List ℕ
  uniform_from zero last g = []
  uniform_from (suc left) last g =
      let (p, h) = random.uniform 0 last g in p ∷ uniform_from left last h

  unfoldable pub gen_uniform : ℕ → ℕ → ℕ → List ℕ
  unfolding uniform_from
  gen_uniform pages n seed = uniform_from n (sub32 pages 1) (random.seeded seed)

  -- The start of the working set in round `i`.
  unfoldable pub shifted : ℕ → ℕ → ℕ → ℕ → ℕ → G → ℕ × G
  shifted total_pages working_set quarter i ws_start g =
      if i % quarter == 0 then random.uniform 0 (sub32 total_pages working_set) g else (ws_start, g)

  unfoldable pub page_of : ℕ → ℕ → ℕ → Bool × G → ℕ × G
  page_of total_pages working_set ws_start (true, g) =
      let (x, h) = random.uniform 0 (sub32 working_set 1) g in (add32 ws_start x, h)
  page_of total_pages working_set ws_start (false, g) = random.uniform 0 (sub32 total_pages 1) g

  -- The loop, for `left` rounds from `i` on.
  unfoldable pub locality_from : ℕ → ℕ → ℕ → ℕ → ℕ → ℕ → G → List ℕ
  unfolding shifted page_of
  locality_from total_pages working_set quarter zero i ws_start g = []
  locality_from total_pages working_set quarter (suc left) i ws_start g =
      let (start, h) = shifted total_pages working_set quarter i ws_start g in
      let (p, k) = page_of total_pages working_set start (random.below_nine_tenths h) in
      p ∷ locality_from total_pages working_set quarter left (suc i) start k

  -- `n / 4` is 0 for a trace of one to three pages, and the division by it undefined.
  unfoldable pub gen_locality : ℕ → ℕ → ℕ → ℕ → Option (List ℕ)
  unfolding locality_from
  gen_locality total_pages n working_set seed =
      if ltb 0 n && n / 4 == 0
      then none
      else some (locality_from total_pages working_set (n / 4) n 0 0 (random.seeded seed))
