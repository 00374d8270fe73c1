-- ===== src/Vm/Lru/Tests.antt =====
use memory_allocator.Base.{ℕ, ◌<◌, ◌≡◌, ◌≢◌, refl, true, some, List, [], ◌∷◌}
use memory_allocator.Vm.Lru.{empty, on_load, on_access, victim}
use memory_allocator.Vm.Lru.Recency.{
  Event, load, access, run, last_use, is_loaded, victim_is_least_recent,
}

-- Frames 7, 8 and 9 are loaded, then 7 is accessed.
abbrev history : List Event
history = access 7 ∷ load 9 ∷ load 8 ∷ load 7 ∷ []

second_oldest : victim (run history) ≡ some 8
unfolding run victim on_load on_access empty
second_oldest = refl

victim_is_least_recent_example :
    (is_loaded history 8 ≡ true)
    × ((g : ℕ) → is_loaded history g ≡ true → g ≢ 8 → last_use history 8 < last_use history g)
unfolding is_loaded
victim_is_least_recent_example =
    victim_is_least_recent history (refl, (refl, (refl, tt))) second_oldest
