-- ===== src/Vm/Clock/Tests.antt =====
use memory_allocator.Base.{◌*◌, length, ◌≡◌, refl, some, true, [], ◌∷◌, arith}
use memory_allocator.Vm.Clock.{Clock, empty, on_load, victim, on_evict}
use memory_allocator.Vm.Clock.SecondChance.{Found, victim-Found}

abbrev loaded : Clock
unfolding on_load empty
loaded = record (on_load (on_load (on_load empty 7) 8) 9) { hand = 1 }

-- All three are referenced: the hand goes once round and comes back to where it stood.
once_round : (victim loaded).0 ≡ some 8
unfolding victim on_load empty
once_round = refl

moved_last :
    (on_evict loaded 7).ring
    ≡ record { frame = 9; ref = true } ∷ record { frame = 8; ref = true } ∷ []
unfolding on_evict on_load empty
moved_last = refl

victim-Found_example : Found loaded (length loaded.ring * 2) (victim loaded)
unfolding on_load empty
victim-Found_example = victim-Found loaded (omega arith)
