-- ===== src/Vm/FrameAllocator/Tests.antt =====
use memory_allocator.Base.{ℕ, ◌+◌, ◌≡◌, ◌↔◌, refl, false, ltb, if◌then◌else◌, [], ◌∷◌, arith}
use memory_allocator.Base.Count.{count}
use memory_allocator.Vm.FrameAllocator.{
  FrameAllocator, bad_alloc, construct, alloc, has_free, used_frames,
}
use memory_allocator.Vm.FrameAllocator.Clients.{Reach, here, next, take, frames_held_once}

abbrev after_two : FrameAllocator
after_two = record { total = 3; free_queue = 2 ∷ [] }

two_taken : Reach (construct 3) after_two (1 ∷ 0 ∷ [])
unfolding construct alloc
two_taken = next (next here (take refl)) (take refl)

exhausted : alloc (construct 0) ≡ bad_alloc
unfolding construct alloc
exhausted = refl

frames_held_once_test :
    ((f : ℕ) → count f (2 ∷ []) + count f (1 ∷ 0 ∷ []) ≡ (if ltb f 3 then 1 else 0))
    × (used_frames after_two ≡ 2)
    × ((has_free after_two ≡ false) ↔ (◌≡◌ {A = ℕ} 2 3))
frames_held_once_test = frames_held_once 3 (omega arith) two_taken
