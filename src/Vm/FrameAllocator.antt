-- ===== src/Vm/FrameAllocator.antt =====
-- memlab/include/memlab/vm/frame_allocator.hpp. The queue is a list, the oldest frame first.
pub mod Clients
mod Tests
use memory_allocator.Base.{
  ℕ, zero, suc, ◌+◌, ◌-◌, ◌%◌, ◌^◌, Bool, true, false, List, [], ◌∷◌, ◌++◌, length,
}

pub record FrameAllocator : Type 0 where
  pub total : ℕ
  pub free_queue : List ℕ

pub data Result {ℓ} (A : Type ℓ) : Type ℓ where
  ok : A → Result A
  bad_alloc : Result A

-- The constructor's loop, `n` rounds from `f` on.
abbrev pub push_frames : ℕ → ℕ → List ℕ → List ℕ
push_frames zero f queue = queue
push_frames (suc n) f queue = push_frames n (suc f) (queue ++ f ∷ [])

unfoldable pub construct : ℕ → FrameAllocator
construct total_frames = record { total = total_frames; free_queue = push_frames total_frames 0 [] }

take_front : ℕ → List ℕ → Result (ℕ × FrameAllocator)
take_front total [] = bad_alloc
take_front total (f ∷ rest) = ok (f, record { total = total; free_queue = rest })

unfoldable pub alloc : FrameAllocator → Result (ℕ × FrameAllocator)
unfolding take_front
alloc a = take_front a.total a.free_queue

unfoldable pub free : FrameAllocator → ℕ → FrameAllocator
free a frame = record a { free_queue = a.free_queue ++ frame ∷ [] }

unfoldable pub has_free : FrameAllocator → Bool
has_free a = elim a.free_queue [ [] ↦ false | f ∷ rest ↦ true ]

abbrev free_frames : FrameAllocator → ℕ
free_frames a = length a.free_queue % 2 ^ 32

unfoldable pub used_frames : FrameAllocator → ℕ
used_frames a = (a.total + 2 ^ 32 - free_frames a) % 2 ^ 32
