-- ===== src/Prelude/Bits.antt =====
-- Casts to the fixed widths, and the laws of `&`, `|` and `^` that the components use.
mod Step
mod Table
mod Xor
pub use Xor.{
  bit_xor_parity, bit_xor-half, bit_xor_odd, bit_xor-lt_pow, bit_xor_assoc, bit_xor_comm,
  bit_xor_self, bit_xor-zero, bit_xor-cancel_right, bit_xor-cancel_left, bit_xor_high,
  bit_xor_split,
}
unfoldable pub use Table.{all_below}
pub use Table.{all_below_sound}
pub use Step.{bit_and_step, bit_or_step, bit_xor_step, zero-bit_and}
use Prim.Native.Nat.{ℕ, zero, suc, ◌+◌, ◌-◌, ◌*◌, ◌/◌, ◌%◌, ◌^◌, ◌≤◌, ◌<◌, bit_and, bit_or, bit_xor}
use mathlib.Core.Path.{◌≡◌, refl, sym, ap, ◌∙◌}
use native.Mathlib.Nat.{pow-suc, pow-succ', one-le-pow, div-div-eq-div-mul}
use native.Mathlib.Omega.{arith}

abbrev pub u8 : ℕ → ℕ
u8 n = n % 2 ^ 8

abbrev pub u16 : ℕ → ℕ
u16 n = n % 2 ^ 16

abbrev pub u32 : ℕ → ℕ
u32 n = n % 2 ^ 32

abbrev pub u64 : ℕ → ℕ
u64 n = n % 2 ^ 64

infixl 75 ◌<<<◌ ◌>>>◌
abbrev pub ◌<<<◌ : ℕ → ℕ → ℕ
x <<< k = x * 2 ^ k

abbrev pub ◌>>>◌ : ℕ → ℕ → ℕ
x >>> k = x / 2 ^ k

-- `(uint8_t)~x` for a byte.
abbrev pub not8 : ℕ → ℕ
not8 x = 255 - x

bit_or-zero_fuel : (fuel a : ℕ) → a ≤ fuel → bit_or a 0 ≡ a
bit_or-zero_fuel fuel zero h = refl
bit_or-zero_fuel zero (suc a) h = absurd (omega arith)
bit_or-zero_fuel (suc fuel) (suc a) h =
    ground (arith, bit_or_step (suc a) 0, bit_or-zero_fuel fuel (suc a / 2))

pub bit_or-zero : (a : ℕ) → bit_or a 0 ≡ a
bit_or-zero a = bit_or-zero_fuel a a (omega arith)

bit_and-le_right_fuel : (n a b : ℕ) → a ≤ n → bit_and a b ≤ b
bit_and-le_right_fuel n zero b p = omega (arith, zero-bit_and b)
bit_and-le_right_fuel zero (suc a) b p = absurd (omega arith)
bit_and-le_right_fuel (suc n) (suc a) b p =
    omega (arith, bit_and_step (suc a) b, bit_and-le_right_fuel n (suc a / 2) (b / 2) (omega arith))

pub bit_and-le_right : (a b : ℕ) → bit_and a b ≤ b
bit_and-le_right a b = bit_and-le_right_fuel a a b (omega arith)

-- `&` gives no more than either side.
bit_and-le_left_fuel : (fuel a b : ℕ) → a ≤ fuel → bit_and a b ≤ a
bit_and-le_left_fuel fuel zero b h = omega (arith, zero-bit_and b)
bit_and-le_left_fuel zero (suc a) b h = absurd (omega arith)
bit_and-le_left_fuel (suc fuel) (suc a) b h =
    ground (arith, bit_and_step (suc a) b, bit_and-le_left_fuel fuel (suc a / 2) (b / 2))

pub bit_and-le_left : (a b : ℕ) → bit_and a b ≤ a
bit_and-le_left a b = bit_and-le_left_fuel a a b (omega arith)

pub bit_and-zero : (a : ℕ) → bit_and a 0 ≡ 0
bit_and-zero a = omega (arith, bit_and-le_right a 0)

-- `|` of two values that fit `k` bits fits `k` bits.
pub bit_or-lt_pow : (k a b : ℕ) → a < 2 ^ k → b < 2 ^ k → bit_or a b < 2 ^ k
bit_or-lt_pow zero zero zero p q = omega arith
bit_or-lt_pow zero zero (suc b) p q = absurd (omega arith)
bit_or-lt_pow zero (suc a) b p q = absurd (omega arith)
bit_or-lt_pow (suc k) a b p q = omega (
  arith,
  pow-suc 2 k,
  bit_or_step a b,
  bit_or-lt_pow k (a / 2) (b / 2) (omega (arith, pow-suc 2 k)) (omega (arith, pow-suc 2 k)),
)

shift_one : (k field : ℕ) → field * 2 ^ suc k ≡ 2 * (field * 2 ^ k)
shift_one k field = omega (arith, ap (λ (power : ℕ). field * power) (pow-suc 2 k))

-- A value below the low end of a field is or-ed in as if it were added.
pub bit_or_fields :
    (k field low : ℕ) → low < 2 ^ k → bit_or (field * 2 ^ k) low ≡ field * 2 ^ k + low
bit_or_fields zero field low fits = ground (arith, bit_or-zero field)
bit_or_fields (suc k) field low fits =
    let half = bit_or_fields k field (low / 2) (omega (arith, pow-suc 2 k)) in
    ground (arith, half, shift_one k field, bit_or_step (field * 2 ^ suc k) low)

bit_or_comm_fuel : (n a b : ℕ) → a ≤ n → b ≤ n → bit_or a b ≡ bit_or b a
bit_or_comm_fuel zero a b p q = let e : a ≡ b = omega arith in rw e
bit_or_comm_fuel (suc n) zero zero p q = refl
bit_or_comm_fuel (suc n) zero (suc b) p q =
    ground (arith, bit_or_step 0 (suc b), bit_or_step (suc b) 0, bit_or_comm_fuel n 0 (suc b / 2))
bit_or_comm_fuel (suc n) (suc a) b p q =
    ground
      (arith, bit_or_step (suc a) b, bit_or_step b (suc a), bit_or_comm_fuel n (suc a / 2) (b / 2))

pub bit_or_comm : (a b : ℕ) → bit_or a b ≡ bit_or b a
bit_or_comm a b = bit_or_comm_fuel (a + b) a b (omega arith) (omega arith)

-- `r | (q << k)` is a sum when `r` fits `k` bits.
pub bit_or_low : (k q r : ℕ) → r < 2 ^ k → bit_or r (q * 2 ^ k) ≡ q * 2 ^ k + r
bit_or_low k q r fits = bit_or_comm r (q * 2 ^ k) ∙ bit_or_fields k q r fits

bit_and_fields : (k q r : ℕ) → r < 2 ^ k → bit_and (q * 2 ^ k + r) (2 ^ k - 1) ≡ r
bit_and_fields zero q r fits = rw bit_and-zero (omega arith)
bit_and_fields (suc k) q r fits = ground (
  arith,
  bit_and_step (q * 2 ^ suc k + r) (2 ^ suc k - 1),
  shift_one k q,
  pow-suc 2 k,
  bit_and_fields k q (r / 2) (omega arith),
)

-- A mask of `k` low bits is the remainder by `2 ^ k`.
pub bit_and_mask : (k a : ℕ) → bit_and a (2 ^ k - 1) ≡ a % 2 ^ k
bit_and_mask k a = ground (arith, one-le-pow k 2, bit_and_fields k (a / 2 ^ k) (a % 2 ^ k))

div-pow-suc : (k a : ℕ) → a / 2 ^ suc k ≡ a / 2 / 2 ^ k
div-pow-suc k a = rw (pow-succ' 2 k) (sym (div-div-eq-div-mul a 2 (2 ^ k)))

-- A mask that leaves the low `k` bits out looks at the bits above.
pub bit_and_high : (k a m : ℕ) → bit_and a (m * 2 ^ k) ≡ bit_and (a / 2 ^ k) m * 2 ^ k
bit_and_high zero a m = ground arith
bit_and_high (suc k) a m = ground (
  arith,
  bit_and_step a (m * 2 ^ suc k),
  shift_one k m,
  shift_one k (bit_and (a / 2 / 2 ^ k) m),
  bit_and_high k (a / 2) m,
  div-pow-suc k a,
)

-- The value of one bit.
pub bit_and_pow : (k a : ℕ) → bit_and a (2 ^ k) ≡ a / 2 ^ k % 2 * 2 ^ k
bit_and_pow k a = ground (arith, bit_and_high k a 1, bit_and_mask 1 (a / 2 ^ k))
