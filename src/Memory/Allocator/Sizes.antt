-- ===== src/Memory/Allocator/Sizes.antt =====
-- The test of the count keeps the number of bytes from wrapping.
use native.Mathlib.Nat.{div-add-mod', mul-le-mul_right}
use memory_allocator.Base.{ℕ, ◌-◌, ◌*◌, ◌/◌, ◌^◌, ◌≤◌, ◌<◌, ◌≡◌, ltb, ltb→ge, false, arith}
use memory_allocator.Memory.Allocator.{bytes_of}

-- For objects of at least a byte: where `allocate` does not throw bad_array_new_length, the bytes
-- that it asks for are those of `n` objects.
bytes-exact :
    (sizeof_t n : ℕ)
    → 0 < sizeof_t
    → ltb ((2 ^ 64 - 1) / sizeof_t) n ≡ false
    → bytes_of sizeof_t n ≡ n * sizeof_t
bytes-exact sizeof_t n p e =
    let few : n ≤ (2 ^ 64 - 1) / sizeof_t = ltb→ge ((2 ^ 64 - 1) / sizeof_t) n e in
    let scaled : n * sizeof_t ≤ (2 ^ 64 - 1) / sizeof_t * sizeof_t =
      mul-le-mul_right sizeof_t few in
    omega (arith, scaled, div-add-mod' (2 ^ 64 - 1) sizeof_t)
