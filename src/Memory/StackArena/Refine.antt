-- ===== src/Memory/StackArena/Refine.antt =====
-- A stack arena is a linear arena on its buffer.
use memory_allocator.Base.{
  Option, none, some, ℕ, ◌≡◌, refl, List, [], ◌∷◌, ltb, Bool-cases, inl, inr,
}
use memory_allocator.Base.Bits.{add64, sub64}
use memory_allocator.Memory.Utils.{align_ptr}
use memory_allocator.Memory.LinearArena
use memory_allocator.Memory.LinearArena.{LinearArena}
use memory_allocator.Memory.StackArena.{StackArena, allocate, reset, get_used_memory, get_capacity}

abbrev pub as_linear : StackArena → LinearArena
as_linear a = record { storage = record { ptr = a.buffer; size = a.capacity }; offset = a.offset }

-- What a client does with an arena, and what it sees.
pub data Call : Type 0 where
  allocates : ℕ → ℕ → Call
  resets uses caps : Call

pub run : StackArena → List Call → List (Option ℕ)
run a [] = []
run a (allocates size alignment ∷ cs) = let (p, a') = allocate a size alignment in p ∷ run a' cs
run a (resets ∷ cs) = none ∷ run (reset a) cs
run a (uses ∷ cs) = some (get_used_memory a) ∷ run a cs
run a (caps ∷ cs) = some (get_capacity a) ∷ run a cs

pub run_linear : LinearArena → List Call → List (Option ℕ)
run_linear a [] = []
run_linear a (allocates size alignment ∷ cs) =
    let (p, a') = LinearArena.allocate a size alignment in p ∷ run_linear a' cs
run_linear a (resets ∷ cs) = none ∷ run_linear (LinearArena.reset a) cs
run_linear a (uses ∷ cs) = some (LinearArena.get_used_memory a) ∷ run_linear a cs
run_linear a (caps ∷ cs) = some (LinearArena.get_capacity a) ∷ run_linear a cs

-- `Allocate` of the two arenas gives the same pointer and the same new state.
allocate-linear :
    (a : StackArena) (size alignment : ℕ)
    → let (p, a') = allocate a size alignment in
      LinearArena.allocate (as_linear a) size alignment ≡ (p, as_linear a')
unfolding allocate LinearArena.allocate
allocate-linear a size alignment = elim (Bool-cases (ltb a.capacity new_offset)) [
  | inl e ↦ rw e
  | inr e ↦ rw e
]
  where
    new_offset : ℕ
    new_offset = add64 (sub64 (align_ptr (add64 a.buffer a.offset) alignment) a.buffer) size

-- No sequence of calls tells a stack arena from a linear arena whose storage is its buffer.
pub run-linear : (a : StackArena) (cs : List Call) → run a cs ≡ run_linear (as_linear a) cs
unfolding run run_linear reset get_used_memory get_capacity LinearArena.reset
    LinearArena.get_used_memory LinearArena.get_capacity
run-linear a [] = refl
run-linear a (allocates size alignment ∷ cs) =
    rw (allocate-linear a size alignment, run-linear (allocate a size alignment).1 cs)
run-linear a (resets ∷ cs) = rw (run-linear (reset a) cs)
run-linear a (uses ∷ cs) = rw (run-linear a cs)
run-linear a (caps ∷ cs) = rw (run-linear a cs)
