-- ===== src/Base/Bits/Step.antt =====
-- The native operations mean `bitwise`, a recursion on binary digits with fuel. Here one digit is
-- taken off, and the fuel is dropped.
use Prim.Native.Nat.{
  ℕ, zero, suc, ◌+◌, ◌*◌, ◌/◌, ◌%◌, ◌≤◌, ◌<◌, min, max, differ, digits, bitwise, bit_and, bit_or,
  bit_xor, bit_and-bitwise, bit_or-bitwise, bit_xor-bitwise,
}
use mathlib.Core.Path.{◌≡◌, refl}
use native.Mathlib.Omega.{arith}
use native.Mathlib.Nat.{le_refl}

module _ (end : ℕ → ℕ) (op : ℕ → ℕ → ℕ) where
  -- Two amounts of fuel that are at least the number give the same digits.
  same_digits : (x y i j : ℕ) → x ≤ i → x ≤ j → digits end op i x y ≡ digits end op j x y
  same_digits zero y zero zero = λ s t. refl
  same_digits zero y zero (suc j) = λ s t. refl
  same_digits zero y (suc i) zero = λ s t. refl
  same_digits zero y (suc i) (suc j) = λ s t. refl
  same_digits (suc x) y zero j = λ s t. absurd (omega arith)
  same_digits (suc x) y (suc i) zero = λ s t. absurd (omega arith)
  same_digits (suc x) y (suc i) (suc j) =
      λ s t. rw (same_digits (suc x / 2) (y / 2) i j (omega arith) (omega arith))

  low_digit :
      (x y : ℕ)
      → bitwise end op (suc x) y ≡ bitwise end op (suc x / 2) (y / 2) * 2 + op (suc x % 2) (y % 2)
  low_digit x y =
      let half : ℕ = suc x / 2 in
      omega (arith, same_digits half (y / 2) x half (omega arith) (le_refl half))

pub bit_and_step : (x y : ℕ) → bit_and x y ≡ bit_and (x / 2) (y / 2) * 2 + min (x % 2) (y % 2)
bit_and_step zero y = simp bit_and-bitwise (omega arith)
bit_and_step (suc x) y = simp bit_and-bitwise (low_digit (λ t. 0) min x y)

pub bit_or_step : (x y : ℕ) → bit_or x y ≡ bit_or (x / 2) (y / 2) * 2 + max (x % 2) (y % 2)
bit_or_step zero y = simp bit_or-bitwise (omega arith)
bit_or_step (suc x) y = simp bit_or-bitwise (low_digit (λ t. t) max x y)

differ_digits : (x y : ℕ) → x < 2 → y < 2 → differ x y ≡ (x + y) % 2
differ_digits zero y p q = omega arith
differ_digits (suc zero) zero p q = refl
differ_digits (suc zero) (suc zero) p q = refl
differ_digits (suc zero) (suc (suc y)) p q = absurd (omega arith)
differ_digits (suc (suc x)) y p q = absurd (omega arith)

pub bit_xor_step : (a b : ℕ) → bit_xor a b ≡ bit_xor (a / 2) (b / 2) * 2 + (a + b) % 2
bit_xor_step zero b = simp bit_xor-bitwise (omega arith)
bit_xor_step (suc a) b =
    omega (arith, differ_digits (suc a % 2) (b % 2) (omega arith) (omega arith), digit_equation)
  where
    digit_equation :
        bit_xor (suc a) b ≡ bit_xor (suc a / 2) (b / 2) * 2 + differ (suc a % 2) (b % 2)
    digit_equation = simp bit_xor-bitwise (low_digit (λ y. y) differ a b)
