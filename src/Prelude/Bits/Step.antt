-- ===== src/Prelude/Bits/Step.antt =====
-- How `&`, `|` and `^` split off the lowest binary digit of both sides.
use Prim.Native.Nat.{ℕ, zero, suc, ◌+◌, ◌*◌, ◌/◌, ◌%◌, ◌≤◌, min, max, bit_and, bit_or, bit_xor}
use Prim.Native.Nat.{digits, bitwise, differ, bit_and-bitwise, bit_or-bitwise, bit_xor-bitwise}
use mathlib.Core.Path.{◌≡◌, refl, ap}
use native.Mathlib.Omega.{arith}

module _ (rest : ℕ → ℕ) (digit : ℕ → ℕ → ℕ) where
  -- Fuel past the number itself changes nothing.
  digits_more :
      (x y low high : ℕ)
      → x ≤ low
      → low ≤ high
      → digits rest digit high x y ≡ digits rest digit low x y
  digits_more zero y zero zero h k = refl
  digits_more zero y zero (suc high) h k = refl
  digits_more zero y (suc low) zero h k = absurd (omega arith)
  digits_more zero y (suc low) (suc high) h k = refl
  digits_more (suc x) y (suc low) zero h k = absurd (omega arith)
  digits_more (suc x) y zero high h k = absurd (omega arith)
  digits_more (suc x) y (suc low) (suc high) h k =
      ap (λ (t : ℕ). t * 2 + digit (suc x % 2) (y % 2))
        (digits_more (suc x / 2) (y / 2) low high (omega arith) (omega arith))

  lowest :
      (x y : ℕ)
      → bitwise rest digit (suc x) y
        ≡ bitwise rest digit (suc x / 2) (y / 2) * 2 + digit (suc x % 2) (y % 2)
  lowest x y =
      ap (λ (t : ℕ). t * 2 + digit (suc x % 2) (y % 2))
        (digits_more (suc x / 2) (y / 2) (suc x / 2) x (omega arith) (omega arith))

pub bit_and_step : (x y : ℕ) → bit_and x y ≡ bit_and (x / 2) (y / 2) * 2 + min (x % 2) (y % 2)
bit_and_step zero y = omega (arith, bit_and-bitwise 0 y, bit_and-bitwise 0 (y / 2))
bit_and_step (suc x) y =
    rw (bit_and-bitwise (suc x) y, bit_and-bitwise (suc x / 2) (y / 2)) (lowest (λ _. 0) min x y)

pub bit_or_step : (x y : ℕ) → bit_or x y ≡ bit_or (x / 2) (y / 2) * 2 + max (x % 2) (y % 2)
bit_or_step zero y = omega (arith, bit_or-bitwise 0 y, bit_or-bitwise 0 (y / 2))
bit_or_step (suc x) y =
    rw (bit_or-bitwise (suc x) y, bit_or-bitwise (suc x / 2) (y / 2)) (lowest (λ t. t) max x y)

pub bit_xor_step : (x y : ℕ) → bit_xor x y ≡ bit_xor (x / 2) (y / 2) * 2 + differ (x % 2) (y % 2)
bit_xor_step zero y = omega (arith, bit_xor-bitwise 0 y, bit_xor-bitwise 0 (y / 2))
bit_xor_step (suc x) y =
    rw (bit_xor-bitwise (suc x) y, bit_xor-bitwise (suc x / 2) (y / 2)) (lowest (λ t. t) differ x y)

pub zero-bit_and : (y : ℕ) → bit_and 0 y ≡ 0
zero-bit_and y = bit_and-bitwise 0 y
