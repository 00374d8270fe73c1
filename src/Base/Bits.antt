-- ===== src/Base/Bits.antt =====
-- Words of 64 bits as numbers, and the laws of the masks that the allocators compute with.
use Prim.Native.Nat.{
  ℕ, zero, suc, ◌+◌, ◌-◌, ◌*◌, ◌/◌, ◌%◌, ◌^◌, ◌≤◌, ◌<◌, min, bit_and, bit_xor, digits, differ,
  bit_and-bitwise, bit_xor-bitwise,
}
use mathlib.Core.Path.{◌≡◌, refl, sym}
use native.Mathlib.Omega.{arith}
use native.Mathlib.Nat.{pow-suc, pow-succ', div-div-eq-div-mul, zero-div, mul_assoc}
use native.Mathlib.Nat.{div-add-mod'}

-- `size_t` and `uintptr_t` have 64 bits.
abbrev pub word_size : ℕ
word_size = 2 ^ 64

abbrev pub add64 : ℕ → ℕ → ℕ
add64 a b = (a + b) % word_size

abbrev pub sub64 : ℕ → ℕ → ℕ
sub64 a b = (a + word_size - b) % word_size

abbrev pub mul64 : ℕ → ℕ → ℕ
mul64 a b = (a * b) % word_size

-- `~x`
abbrev pub not64 : ℕ → ℕ
not64 x = word_size - 1 - x

-- `x << k`
abbrev pub shl64 : ℕ → ℕ → ℕ
shl64 x k = (x * 2 ^ k) % word_size

-- Enough rounds give the digits of an operation.
digits_fuel :
    (t : ℕ → ℕ) (f : ℕ → ℕ → ℕ) (n m a b : ℕ) → a ≤ n → a ≤ m → digits t f n a b ≡ digits t f m a b
digits_fuel t f zero zero a b p q = refl
digits_fuel t f zero (suc m) zero b p q = refl
digits_fuel t f zero (suc m) (suc a) b p q = absurd (omega arith)
digits_fuel t f (suc n) zero zero b p q = refl
digits_fuel t f (suc n) zero (suc a) b p q = absurd (omega arith)
digits_fuel t f (suc n) (suc m) zero b p q = refl
digits_fuel t f (suc n) (suc m) (suc a) b p q =
    omega (arith, digits_fuel t f n m (suc a / 2) (b / 2) (omega arith) (omega arith))

bit_and_zero : (b : ℕ) → bit_and 0 b ≡ 0
bit_and_zero b = bit_and-bitwise 0 b

bit_xor_zero : (b : ℕ) → bit_xor 0 b ≡ b
bit_xor_zero b = bit_xor-bitwise 0 b

-- The law for the lowest digit.
pub bit_and_digit : (a b : ℕ) → bit_and a b ≡ bit_and (a / 2) (b / 2) * 2 + min (a % 2) (b % 2)
bit_and_digit zero b = omega (arith, bit_and_zero b, bit_and_zero (b / 2))
bit_and_digit (suc a) b = omega (
  arith,
  bit_and-bitwise (suc a) b,
  bit_and-bitwise (suc a / 2) (b / 2),
  digits_fuel (λ b. zero) min a (suc a / 2) (suc a / 2) (b / 2) (omega arith) (omega arith),
)

pub bit_xor_digit :
    (a b : ℕ) → bit_xor (suc a) b ≡ bit_xor (suc a / 2) (b / 2) * 2 + differ (suc a % 2) (b % 2)
bit_xor_digit a b = omega (
  arith,
  bit_xor-bitwise (suc a) b,
  bit_xor-bitwise (suc a / 2) (b / 2),
  digits_fuel (λ b. b) differ a (suc a / 2) (suc a / 2) (b / 2) (omega arith) (omega arith),
)

pub pow-pos : (k : ℕ) → 0 < 2 ^ k
pow-pos zero = omega arith
pow-pos (suc k) = omega (arith, pow-pos k, pow-suc 2 k)

pub pow-lt : (j w : ℕ) → j < w → 2 ^ j < 2 ^ w
pow-lt j zero l = absurd (omega arith)
pow-lt zero (suc w) l = omega (arith, pow-suc 2 w, pow-pos w)
pow-lt (suc j) (suc w) l = omega (arith, pow-suc 2 w, pow-suc 2 j, pow-lt j w (omega arith))

differ_zero : (a : ℕ) → differ a 0 ≡ a
differ_zero zero = refl
differ_zero (suc a) = refl

-- The same with the halved mask named.
bit_and_half : (a m n : ℕ) → m / 2 ≡ n → bit_and a m ≡ bit_and (a / 2) n * 2 + min (a % 2) (m % 2)
bit_and_half a m n e = rw (← e) (bit_and_digit a m)

bit_xor_half :
    (a m n : ℕ) → 0 < a → m / 2 ≡ n → m % 2 ≡ 0 → bit_xor a m ≡ bit_xor (a / 2) n * 2 + a % 2
bit_xor_half zero m n h e z = absurd (omega arith)
bit_xor_half (suc a) m n h e z =
    rw (← e) (omega (arith, bit_xor_digit a m, rw (← z) at differ_zero (suc a % 2)))

-- A mask of `w` ones keeps a number of `w` bits.
bit_and-ones : (w x : ℕ) → x < 2 ^ w → bit_and x (2 ^ w - 1) ≡ x
bit_and-ones zero zero h = refl
bit_and-ones zero (suc x) h = absurd (omega arith)
bit_and-ones (suc w) x h = omega (
  arith,
  bit_and_half x (2 ^ suc w - 1) (2 ^ w - 1) (omega (arith, pow-suc 2 w, pow-pos w)),
  pow-suc 2 w,
  pow-pos w,
  bit_and-ones w (x / 2) (omega (arith, pow-suc 2 w)),
)

half-div : (x k : ℕ) → x / 2 / 2 ^ k ≡ x / 2 ^ suc k
half-div x k = rw pow-succ' (div-div-eq-div-mul x 2 (2 ^ k))

times_pow-suc : (q k : ℕ) → q * 2 ^ suc k ≡ q * 2 ^ k * 2
times_pow-suc q k = rw pow-suc (sym (mul_assoc q (2 ^ k) 2))

high-suc : (x k : ℕ) → x / 2 ^ suc k * 2 ^ suc k ≡ x / 2 / 2 ^ k * 2 ^ k * 2
high-suc x k = rw half-div (times_pow-suc (x / 2 ^ suc k) k)

digit-suc : (x k : ℕ) → x / 2 ^ suc k % 2 * 2 ^ suc k ≡ x / 2 / 2 ^ k % 2 * 2 ^ k * 2
digit-suc x k = rw half-div (times_pow-suc (x / 2 ^ suc k % 2) k)

-- `x & ~(2^k - 1)`: the low digits are cleared.
pub bit_and-high : (k w x : ℕ) → k ≤ w → x < 2 ^ w → bit_and x (2 ^ w - 2 ^ k) ≡ x / 2 ^ k * 2 ^ k
bit_and-high zero w x l h = omega (arith, bit_and-ones w x h)
bit_and-high (suc k) zero x l h = absurd (omega arith)
bit_and-high (suc k) (suc w) x l h = omega (
  arith,
  bit_and_half x (2 ^ suc w - 2 ^ suc k) (2 ^ w - 2 ^ k) (omega (arith, pow-suc 2 w, pow-suc 2 k)),
  pow-suc 2 w,
  pow-suc 2 k,
  bit_and-high k w (x / 2) (omega arith) (omega (arith, pow-suc 2 w)),
  high-suc x k,
)

-- `x & ~2^j`: one digit is cleared.
pub bit_and-clear :
    (j w x : ℕ) → j < w → x < 2 ^ w → bit_and x (2 ^ w - 1 - 2 ^ j) + x / 2 ^ j % 2 * 2 ^ j ≡ x
bit_and-clear j zero x l h = absurd (omega arith)
bit_and-clear zero (suc w) x l h = omega (
  arith,
  bit_and_half x (2 ^ suc w - 1 - 2 ^ 0) (2 ^ w - 1) (omega (arith, pow-suc 2 w, pow-pos w)),
  pow-suc 2 w,
  pow-pos w,
  bit_and-ones w (x / 2) (omega (arith, pow-suc 2 w)),
)
bit_and-clear (suc j) (suc w) x l h = omega (
  arith,
  bit_and_half x (2 ^ suc w - 1 - 2 ^ suc j) (2 ^ w - 1 - 2 ^ j)
      (omega (arith, pow-suc 2 w, pow-suc 2 j)),
  pow-suc 2 w,
  pow-suc 2 j,
  pow-lt j w (omega arith),
  bit_and-clear j w (x / 2) (omega arith) (omega (arith, pow-suc 2 w)),
  digit-suc x j,
)

bit_xor-zero : (n a : ℕ) → a ≤ n → bit_xor a 0 ≡ a
bit_xor-zero n zero h = refl
bit_xor-zero zero (suc a) h = absurd (omega arith)
bit_xor-zero (suc n) (suc a) h =
    omega
      (arith, bit_xor_digit a 0, differ_zero (suc a % 2), bit_xor-zero n (suc a / 2) (omega arith))

differ_one : (y : ℕ) → y < 2 → differ y 1 + y ≡ 1
differ_one zero h = refl
differ_one (suc zero) h = refl
differ_one (suc (suc y)) h = absurd (omega arith)

-- `x ^ 2^j`: one digit is flipped.
pub bit_xor-flip : (j x : ℕ) → bit_xor x (2 ^ j) + 2 * (x / 2 ^ j % 2 * 2 ^ j) ≡ x + 2 ^ j
bit_xor-flip j zero = rw (zero-div (2 ^ j)) (omega (arith, bit_xor_zero (2 ^ j)))
bit_xor-flip zero (suc x) = omega (
  arith,
  bit_xor_digit x 1,
  bit_xor-zero (suc x / 2) (suc x / 2) (omega arith),
  differ_one (suc x % 2) (omega arith),
)
bit_xor-flip (suc j) (suc x) = omega (
  arith,
  bit_xor_half (suc x) (2 ^ suc j) (2 ^ j) (omega arith) (omega (arith, pow-suc 2 j))
      (omega (arith, pow-suc 2 j)),
  pow-suc 2 j,
  bit_xor-flip j (suc x / 2),
  digit-suc (suc x) j,
)

mod-suc : (x k : ℕ) → x % 2 ^ suc k ≡ x / 2 % 2 ^ k * 2 + x % 2
mod-suc x k = omega (arith, high-suc x k, div-add-mod' x (2 ^ suc k), div-add-mod' (x / 2) (2 ^ k))

bit_and-zero : (n x : ℕ) → x ≤ n → bit_and x 0 ≡ 0
bit_and-zero n zero h = refl
bit_and-zero zero (suc x) h = absurd (omega arith)
bit_and-zero (suc n) (suc x) h =
    omega (arith, bit_and_digit (suc x) 0, bit_and-zero n (suc x / 2) (omega arith))

-- `x & (2^k - 1)`: the low digits.
pub bit_and-low : (k x : ℕ) → bit_and x (2 ^ k - 1) ≡ x % 2 ^ k
bit_and-low zero x = omega (arith, bit_and-zero x x (omega arith))
bit_and-low (suc k) x = omega (
  arith,
  bit_and_half x (2 ^ suc k - 1) (2 ^ k - 1) (omega (arith, pow-suc 2 k, pow-pos k)),
  pow-suc 2 k,
  pow-pos k,
  bit_and-low k (x / 2),
  mod-suc x k,
)
