-- ===== src/Common/Bits.antt =====
-- Exclusive or of binary numbers, digit by digit.
use Prim.Native.Nat.{
  ℕ, zero, suc, ◌+◌, ◌*◌, ◌/◌, ◌%◌, ◌≤◌, ◌<◌, bit_xor, digits, differ, bit_xor-bitwise,
}
use mathlib.Core.Path.{◌≡◌, refl}
use native.Mathlib.Omega.{arith}

differ_digits : (x y : ℕ) → x < 2 → y < 2 → differ x y ≡ (x + y) % 2
differ_digits zero y p q = omega arith
differ_digits (suc zero) zero p q = refl
differ_digits (suc zero) (suc zero) p q = refl
differ_digits (suc zero) (suc (suc y)) p q = absurd (omega arith)
differ_digits (suc (suc x)) y p q = absurd (omega arith)

abbrev xor_digits : ℕ → ℕ → ℕ → ℕ
xor_digits n a b = digits (λ c. c) differ n a b

-- Any count of digits that covers the first number gives the same.
xor_count : (n a b : ℕ) → a ≤ n → xor_digits n a b ≡ xor_digits a a b
xor_count n a b h = count n a a b h (omega arith)
  where
    count : (n m a b : ℕ) → a ≤ n → a ≤ m → xor_digits n a b ≡ xor_digits m a b
    count zero zero a b p q = refl
    count zero (suc m) zero b p q = refl
    count (suc n) zero zero b p q = refl
    count (suc n) (suc m) zero b p q = refl
    count zero m (suc a) b p q = absurd (omega arith)
    count (suc n) zero (suc a) b p q = absurd (omega arith)
    count (suc n) (suc m) (suc a) b p q =
        omega (arith, count n m (suc a / 2) (b / 2) (omega arith) (omega arith))

zero-bit_xor : (b : ℕ) → bit_xor 0 b ≡ b
zero-bit_xor b = bit_xor-bitwise 0 b

bit_xor_step : (a b : ℕ) → bit_xor a b ≡ bit_xor (a / 2) (b / 2) * 2 + (a % 2 + b % 2) % 2
bit_xor_step zero b = omega (arith, zero-bit_xor b, zero-bit_xor (b / 2))
bit_xor_step (suc a) b = omega (
  arith,
  bit_xor-bitwise (suc a) b,
  bit_xor-bitwise (suc a / 2) (b / 2),
  xor_count a (suc a / 2) (b / 2) (omega arith),
  differ_digits (suc a % 2) (b % 2) (omega arith) (omega arith),
)

cancel_below : (n a b : ℕ) → a ≤ n → bit_xor a (bit_xor a b) ≡ b
cancel_below zero zero b h = omega (arith, zero-bit_xor b, zero-bit_xor (bit_xor 0 b))
cancel_below zero (suc a) b h = absurd (omega arith)
cancel_below (suc n) a b h =
    let lower = bit_xor_step a b in
    let half : bit_xor a b / 2 ≡ bit_xor (a / 2) (b / 2) = omega (arith, lower) in
    let upper = rw half at (bit_xor_step a (bit_xor a b)) in
    omega (arith, lower, upper, cancel_below n (a / 2) (b / 2) (omega arith))

-- The same number twice is none.
pub bit_xor_cancel : (a b : ℕ) → bit_xor a (bit_xor a b) ≡ b
bit_xor_cancel a b = cancel_below a a b (omega arith)
