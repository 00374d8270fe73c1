-- ===== src/Sim/Workload/Tests.antt =====
-- Workloads made with an engine that counts.
use memory_allocator.Base.{
  ℕ, suc, ◌%◌, ◌≡◌, refl, ltb, min, if◌then◌else◌, [], ◌∷◌, map, length, arith,
}
use memory_allocator.Base.Random.{Random, RandomLaws}
use memory_allocator.Sim.Workload.{
  mixed, cpu_heavy, make_burst, bursts_from, make_process, processes_from, make_workload,
}
use memory_allocator.Sim.Workload.Made.{AllMade, make_workload-AllMade}

abbrev counting : Random ℕ
counting = record {
  seeded = λ seed. seed;
  uniform = λ lo hi g. (if ltb g lo then lo else min g hi, suc g);
  below_nine_tenths = λ g. (ltb (g % 10) 9, suc g);
}

counting_is_lawful : RandomLaws counting
counting_is_lawful = record { in_range = λ lo hi g l. (ground (arith, l), ground (arith, l)) }

ticks_of_first :
    map (λ p. map (λ b. b.ticks) p.bursts) (make_workload counting cpu_heavy 1 5)
    ≡ (10 ∷ 8 ∷ 10 ∷ []) ∷ []
unfolding make_workload processes_from make_process bursts_from make_burst
ticks_of_first = refl

make_workload-AllMade_example :
    (length (make_workload counting mixed 10 42) ≡ 10)
    × AllMade mixed 0 (make_workload counting mixed 10 42)
make_workload-AllMade_example = make_workload-AllMade counting counting_is_lawful mixed 10 42
