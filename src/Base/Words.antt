-- ===== src/Base/Words.antt =====
-- Joining and masking the bits of a number, at any width.
use Prim.Native.Nat.{
  ℕ, zero, suc, ◌+◌, ◌*◌, ◌/◌, ◌%◌, ◌^◌, ◌≤◌, ◌<◌, min, max, digits, bit_and, bit_or,
  bit_and-bitwise, bit_or-bitwise,
}
use mathlib.Core.Path.{◌≡◌, refl, ap}
use native.Mathlib.Nat.{pow-suc}
use native.Mathlib.Omega.{arith}

-- The digits of a pair of numbers do not depend on how much more fuel than the first there is.
digits_fuel :
    (z : ℕ → ℕ) (f : ℕ → ℕ → ℕ) (n m a b : ℕ) → a ≤ n → a ≤ m → digits z f n a b ≡ digits z f m a b
digits_fuel z f zero zero a b p q = refl
digits_fuel z f zero (suc m) zero b p q = refl
digits_fuel z f zero (suc m) (suc a) b p q = absurd (omega arith)
digits_fuel z f (suc n) zero zero b p q = refl
digits_fuel z f (suc n) zero (suc a) b p q = absurd (omega arith)
digits_fuel z f (suc n) (suc m) zero b p q = refl
digits_fuel z f (suc n) (suc m) (suc a) b p q =
    omega (arith, digits_fuel z f n m (suc a / 2) (b / 2) (omega arith) (omega arith))

bit_or_step : (m n : ℕ) → bit_or m n ≡ bit_or (m / 2) (n / 2) * 2 + max (m % 2) (n % 2)
bit_or_step zero n = omega (arith, bit_or-bitwise 0 n, bit_or-bitwise 0 (n / 2))
bit_or_step (suc m) n = omega (
  arith,
  bit_or-bitwise (suc m) n,
  bit_or-bitwise (suc m / 2) (n / 2),
  digits_fuel (λ d. d) max m (suc m / 2) (suc m / 2) (n / 2) (omega arith) (omega arith),
)

bit_and_step : (m n : ℕ) → bit_and m n ≡ bit_and (m / 2) (n / 2) * 2 + min (m % 2) (n % 2)
bit_and_step zero n = omega (arith, bit_and-bitwise 0 n, bit_and-bitwise 0 (n / 2))
bit_and_step (suc m) n = omega (
  arith,
  bit_and-bitwise (suc m) n,
  bit_and-bitwise (suc m / 2) (n / 2),
  digits_fuel (λ _. 0) min m (suc m / 2) (suc m / 2) (n / 2) (omega arith) (omega arith),
)

or_zero_below : (n a : ℕ) → a ≤ n → bit_or a 0 ≡ a
or_zero_below n zero h = refl
or_zero_below zero (suc a) h = absurd (omega arith)
or_zero_below (suc n) (suc a) h =
    omega (arith, bit_or_step (suc a) 0, or_zero_below n (suc a / 2) (omega arith))

and_zero_below : (n a : ℕ) → a ≤ n → bit_and a 0 ≡ 0
and_zero_below n zero h = refl
and_zero_below zero (suc a) h = absurd (omega arith)
and_zero_below (suc n) (suc a) h =
    omega (arith, bit_and_step (suc a) 0, and_zero_below n (suc a / 2) (omega arith))

shift_suc : (k x : ℕ) → x * 2 ^ suc k ≡ x * 2 ^ k * 2
shift_suc k x = grind (arith, pow-suc 2 k)

half_shift : (k x : ℕ) → x * 2 ^ suc k / 2 ≡ x * 2 ^ k
half_shift k x = omega (arith, shift_suc k x)

-- Low bits below shifted ones: `or` is a sum.
pub bit_or-shifted : (k x y : ℕ) → y < 2 ^ k → bit_or (x * 2 ^ k) y ≡ x * 2 ^ k + y
bit_or-shifted zero x y h = ground (arith, or_zero_below x x)
bit_or-shifted (suc k) x y h = omega (
  arith,
  shift_suc k x,
  bit_or_step (x * 2 ^ suc k) y,
  bit_or-shifted k x (y / 2) (omega (arith, pow-suc 2 k)),
  ap (λ n. bit_or n (y / 2)) (half_shift k x),
)

and_1 : (x : ℕ) → bit_and x 1 ≡ x % 2
and_1 x = omega (arith, bit_and_step x 1, and_zero_below (x / 2) (x / 2))

and_7 : (x : ℕ) → bit_and x 7 ≡ x % 8
and_7 x = omega (arith, bit_and_step x 7, bit_and_step (x / 2) 3, and_1 (x / 2 / 2))

pub bit_and-63 : (x : ℕ) → bit_and x 63 ≡ x % 64
bit_and-63 x = omega (
  arith,
  bit_and_step x 63,
  bit_and_step (x / 2) 31,
  bit_and_step (x / 2 / 2) 15,
  and_7 (x / 2 / 2 / 2),
)

pub bit_and-255 : (x : ℕ) → bit_and x 255 ≡ x % 256
bit_and-255 x = omega (arith, bit_and_step x 255, bit_and_step (x / 2) 127, bit_and-63 (x / 2 / 2))

pub bit_and-1023 : (x : ℕ) → bit_and x 1023 ≡ x % 1024
bit_and-1023 x =
    omega (arith, bit_and_step x 1023, bit_and_step (x / 2) 511, bit_and-255 (x / 2 / 2))
