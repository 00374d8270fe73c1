-- ===== src/Memory/StackArena/Tests.antt =====
use memory_allocator.Base.{◌≡◌, List, [], ◌∷◌}
use memory_allocator.Memory.StackArena.{StackArena}
use memory_allocator.Memory.StackArena.Refine.{
  Call, allocates, resets, uses, run, run_linear, as_linear, run-linear,
}

abbrev scratch : StackArena
scratch = record { buffer = 4096; capacity = 256; offset = 0 }

abbrev calls : List Call
calls = allocates 100 8 ∷ allocates 64 64 ∷ allocates 500 8 ∷ uses ∷ resets ∷ uses ∷ []

run-linear_example : run scratch calls ≡ run_linear (as_linear scratch) calls
run-linear_example = run-linear scratch calls
