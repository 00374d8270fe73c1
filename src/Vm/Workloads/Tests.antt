-- ===== src/Vm/Workloads/Tests.antt =====
-- The generators of page traces with an engine that counts.
use memory_allocator.Base.{
  ℕ, suc, ◌*◌, ◌%◌, ◌≡◌, refl, ltb, min, if◌then◌else◌, none, some, List, [], ◌∷◌, arith,
}
use memory_allocator.Vm.Workloads.{pages_from, gen_sequential, gen_uniform, gen_locality}
use memory_allocator.Base.Random.{Random, RandomLaws}
use memory_allocator.Vm.Workloads.Pages.{IsTrace, generators-IsTrace}

abbrev counting : Random ℕ
counting = record {
  seeded = λ seed. seed;
  uniform = λ lo hi g. (if ltb g lo then lo else min g hi, suc g);
  below_nine_tenths = λ g. (ltb (g % 10) 9, suc g);
}

counting-RandomLaws : RandomLaws counting
counting-RandomLaws = record { in_range = λ lo hi g l. (ground (arith, l), ground (arith, l)) }

sequential_pages : gen_sequential 3 2 ≡ 0 ∷ 1 ∷ 2 ∷ 0 ∷ 1 ∷ 2 ∷ []
unfolding gen_sequential pages_from
sequential_pages = refl

-- A trace of three pages divides by zero.
short_trace : gen_locality counting 20 3 5 42 ≡ none
unfolding gen_locality
short_trace = refl

generators-IsTrace_example :
    IsTrace (50 * 20) 20 (gen_sequential 20 50)
    × IsTrace 1000 20 (gen_uniform counting 20 1000 42)
    × ((l : List ℕ) × (gen_locality counting 20 1000 5 42 ≡ some l) × IsTrace 1000 20 l)
generators-IsTrace_example =
    generators-IsTrace counting counting-RandomLaws 20 1000 5 50 42 (omega arith) (omega arith)
      (omega arith) (omega arith)
