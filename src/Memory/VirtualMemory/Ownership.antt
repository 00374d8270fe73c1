-- ===== src/Memory/VirtualMemory/Ownership.antt =====
-- Who gives a region back, and how often.
use memory_allocator.Base.{
  ℕ, ◌+◌, ◌^◌, ◌≤◌, ◌≡◌, ◌≢◌, append-nil, ap, ◌∙◌, ◌⊎◌, inl, inr, ℕ_discrete, ne→==, false, [],
  ◌++◌, refl, arith,
}
use memory_allocator.Memory.Utils.{align_up}
use memory_allocator.Memory.Utils.Bounds.{RoundsUp, align_up-RoundsUp}
use memory_allocator.Memory.VirtualMemory.{
  VirtualMemory, Unmaps, ok, runtime_error, free_virtual_memory, empty, construct, free, destroy,
  move_construct, move_assign,
}

-- The regions that an object owns.
abbrev pub owned : VirtualMemory → Unmaps
owned v = free_virtual_memory v.ptr v.size []

destroy-owned : (v : VirtualMemory) (log : Unmaps) → destroy v log ≡ log ++ owned v
unfolding destroy free free_virtual_memory
destroy-owned v log = ground (arith, append-nil log)

destroy-empty : (log : Unmaps) → destroy empty log ≡ log
unfolding destroy free empty
destroy-empty log = refl

-- Moving an object into a new one and destroying both gives the region back as often as
-- destroying the object alone: exactly once if it has one.
pub move_construct-destroy :
    (v : VirtualMemory) (log : Unmaps)
    → let (new, old) = move_construct v in destroy old (destroy new log) ≡ log ++ owned v
unfolding move_construct
move_construct-destroy v log = destroy-empty (destroy v log) ∙ destroy-owned v log

-- After a move assignment between two objects, destroying both gives back the region of the
-- target first and that of the source second, each exactly once.
pub move_assign-destroy :
    (this other : VirtualMemory) (log : Unmaps)
    → let (this', other', log') = move_assign false this other log in
      destroy other' (destroy this' log') ≡ (log ++ owned this) ++ owned other
unfolding move_assign destroy
move_assign-destroy this other log =
    destroy-empty (destroy other (destroy this log))
    ∙ (destroy-owned other (destroy this log) ∙ ap (λ l. l ++ owned other) (destroy-owned this log))

-- For a request that leaves room for a page below 2^64: the constructor throws exactly when the
-- OS answers null, and otherwise holds the answer with a size that is the request rounded up to
-- whole pages.
pub construct_lem :
    (answer size : ℕ)
    → size + 4096 ≤ 2 ^ 64
    → ((answer ≡ 0) × (construct answer size ≡ runtime_error))
      ⊎ ((answer ≢ 0)
          × ((v : VirtualMemory) × (construct answer size ≡ ok v)
              × (v.ptr ≡ answer)
              × RoundsUp size 4096 v.size))
unfolding construct
construct_lem answer size h = elim (ℕ_discrete answer 0) [
  | yes null ↦ inl (null, rw null)
  | no valid ↦ inr (
    valid,
    (
      record { ptr = answer; size = align_up size 4096 },
      rw (ne→== answer 0 valid),
      refl,
      align_up-RoundsUp size 12 (omega arith) h,
    ),
  )
]
