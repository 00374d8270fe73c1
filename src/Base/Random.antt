-- ===== src/Base/Random.antt =====
-- The random numbers of <random>, as an interface over the states of an engine.
use Prim.Native.Nat.{ℕ, ◌≤◌}
use mathlib.Core.Bool.{Bool}

-- `std::mt19937` by its seed, `std::uniform_int_distribution` by its two ends, and the test of
-- `std::uniform_real_distribution` against 0.9.
pub record Random (G : Type 0) : Type 0 where
  pub seeded : ℕ → G
  pub uniform : ℕ → ℕ → G → ℕ × G
  pub below_nine_tenths : G → Bool × G

-- A distribution answers between its ends.
pub record RandomLaws {G : Type 0} (random : Random G) : Type 0 where
  pub in_range :
      (lo hi : ℕ) (g : G)
      → lo ≤ hi
      → (lo ≤ (random.uniform lo hi g).0) × ((random.uniform lo hi g).0 ≤ hi)
