-- ===== src/Vm/Optimal/Tests.antt =====
use memory_allocator.Base.{ℕ, ◌≤◌, ◌≡◌, refl, true, some, contains, [], ◌∷◌}
use memory_allocator.Vm.Optimal.{Optimal, construct, on_load, victim, next_uses, never}
use memory_allocator.Vm.Optimal.Furthest.{IsNextUse, victim_is_furthest}

-- Frames 1, 2 and 3 are loaded, and used again in the order 1, 3, 2.
abbrev loaded : Optimal
unfolding construct on_load
loaded = on_load (on_load (on_load (construct (1 ∷ 3 ∷ 2 ∷ [])) 1) 2) 3

furthest_picked : victim loaded ≡ some 2
unfolding victim construct on_load
furthest_picked = refl

next_uses_run : (next_uses 0 (1 ∷ 2 ∷ 1 ∷ [])).0 ≡ 2 ∷ never ∷ never ∷ []
unfolding next_uses
next_uses_run = refl

victim_is_furthest_example :
    (contains loaded.loaded 2 ≡ true)
    × ((n : ℕ) × IsNextUse loaded.pos loaded.trace 2 n
        × ((g : ℕ)
            → contains loaded.loaded g ≡ true
            → (k : ℕ) × IsNextUse loaded.pos loaded.trace g k × (k ≤ n)))
victim_is_furthest_example = victim_is_furthest loaded furthest_picked
