-- ===== src/Base/Count.antt =====
-- How often a number stands in a list.
use memory_allocator.Base.Tests.{◌==◌, if◌then◌else◌}
use Prim.Native.Nat.{ℕ, ◌+◌}
use mathlib.Core.Path.{◌≡◌}
use mathlib.Core.List.{List, [], ◌∷◌, ◌++◌}
use native.Mathlib.Omega.{arith}

-- How often a number stands in a list.
abbrev pub count : ℕ → List ℕ → ℕ
count a [] = 0
count a (x ∷ xs) = (if x == a then 1 else 0) + count a xs

pub count-append : (n : ℕ) (l r : List ℕ) → count n (l ++ r) ≡ count n l + count n r
count-append n [] r = omega arith
count-append n (m ∷ l) r = omega (arith, count-append n l r)
