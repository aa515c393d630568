-- ===== src/Base/Bits.antt =====
-- Bounds of the bitwise operations.
use Prim.Native.Nat.{ℕ, zero, suc, ◌/◌, ◌%◌, ◌≤◌, bit_and, bit_and-bitwise}
use Prim.Native.Nat.{digits, min}
use native.Mathlib.Omega.{arith}

min_le_right : (a b : ℕ) → min a b ≤ b
min_le_right zero b = omega arith
min_le_right (suc a) zero = omega arith
min_le_right (suc a) (suc b) = omega (arith, min_le_right a b)

digits_le_right : (n a b : ℕ) → digits (λ _. 0) min n a b ≤ b
digits_le_right zero a b = omega arith
digits_le_right (suc n) zero b = omega arith
digits_le_right (suc n) (suc a) b =
    omega (arith, digits_le_right n (suc a / 2) (b / 2), min_le_right (suc a % 2) (b % 2))

pub bit_and_le_right : (a b : ℕ) → bit_and a b ≤ b
bit_and_le_right a b = omega (arith, digits_le_right a a b, bit_and-bitwise a b)
