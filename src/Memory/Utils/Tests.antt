-- ===== src/Memory/Utils/Tests.antt =====
use memory_allocator.Base.{◌≡◌, refl, true, arith}
use memory_allocator.Memory.Utils.{align_up, cacheline_align_up, is_aligned}
use memory_allocator.Memory.Utils.Bounds.{RoundsUp, align_up-RoundsUp, is_aligned-align_up}

align_up_runs : (align_up 100 64 ≡ 128) × (align_up 128 64 ≡ 128) × (align_up 0 4096 ≡ 0)
unfolding align_up
align_up_runs = (refl, refl, refl)

align_up-RoundsUp_example : RoundsUp 100 64 (align_up 100 64)
align_up-RoundsUp_example = align_up-RoundsUp 100 6 (omega arith) (omega arith)

is_aligned-align_up_test : is_aligned (cacheline_align_up 100 64) 64 ≡ true
is_aligned-align_up_test = is_aligned-align_up 100 6 (omega arith) (omega arith)
