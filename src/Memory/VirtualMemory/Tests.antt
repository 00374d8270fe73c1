-- ===== src/Memory/VirtualMemory/Tests.antt =====
use memory_allocator.Base.{ℕ, ◌≡◌, ◌≢◌, ◌⊎◌, false, [], ◌∷◌, arith}
use memory_allocator.Memory.Utils.Bounds.{RoundsUp}
use memory_allocator.Memory.VirtualMemory.{
  VirtualMemory, ok, runtime_error, free_virtual_memory, construct, destroy, move_construct,
  move_assign,
}
use memory_allocator.Memory.VirtualMemory.Ownership.{
  move_construct-destroy, move_assign-destroy, construct_lem,
}

abbrev first : VirtualMemory
first = record { ptr = 8192; size = 4096 }

abbrev second : VirtualMemory
second = record { ptr = 65536; size = 12288 }

move_construct-destroy_test :
    let (new, old) = move_construct first in destroy old (destroy new []) ≡ (8192, 4096) ∷ []
unfolding free_virtual_memory
move_construct-destroy_test = move_construct-destroy first []

move_assign-destroy_example :
    let (this', other', log') = move_assign false first second [] in
    destroy other' (destroy this' log') ≡ (8192, 4096) ∷ (65536, 12288) ∷ []
unfolding free_virtual_memory
move_assign-destroy_example = move_assign-destroy first second []

construct_lem_example :
    ((◌≡◌ {A = ℕ} 8192 0) × (construct 8192 5000 ≡ runtime_error))
    ⊎ ((◌≢◌ {A = ℕ} 8192 0)
        × ((v : VirtualMemory) × (construct 8192 5000 ≡ ok v)
            × (v.ptr ≡ 8192)
            × RoundsUp 5000 4096 v.size))
construct_lem_example = construct_lem 8192 5000 (omega arith)
