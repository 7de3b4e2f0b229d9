-- ===== src/Prelude/Bits/Xor.antt =====
-- `^` as an operation on numbers: a commutative group in which each element is its own inverse.
use Prim.Native.Nat.{ℕ, zero, suc, ◌+◌, ◌*◌, ◌/◌, ◌%◌, ◌^◌, ◌≤◌, ◌<◌, bit_xor}
use Prim.Native.Nat.{differ}
use mathlib.Core.Path.{◌≡◌, refl, sym, ap, ◌∙◌}
use native.Mathlib.Nat.{pow-suc}
use native.Mathlib.Omega.{arith}
use aarch.Prelude.Bits.Step.{bit_xor_step}

differ_lem : (x y : ℕ) → x < 2 → y < 2 → differ x y ≡ (x + y) % 2
differ_lem zero zero h k = refl
differ_lem zero (suc zero) h k = refl
differ_lem zero (suc (suc y)) h k = absurd (omega arith)
differ_lem (suc zero) zero h k = refl
differ_lem (suc zero) (suc zero) h k = refl
differ_lem (suc zero) (suc (suc y)) h k = absurd (omega arith)
differ_lem (suc (suc x)) y h k = absurd (omega arith)

-- The lowest digit is the parity of the sum.
pub bit_xor_parity : (x y : ℕ) → bit_xor x y ≡ bit_xor (x / 2) (y / 2) * 2 + (x + y) % 2
bit_xor_parity x y =
    omega (arith, bit_xor_step x y, differ_lem (x % 2) (y % 2) (omega arith) (omega arith))

pub bit_xor-half : (x y : ℕ) → bit_xor x y / 2 ≡ bit_xor (x / 2) (y / 2)
bit_xor-half x y = omega (arith, bit_xor_parity x y)

pub bit_xor_odd : (x y : ℕ) → bit_xor x y % 2 ≡ (x + y) % 2
bit_xor_odd x y = omega (arith, bit_xor_parity x y)

pub bit_xor-lt_pow : (k a b : ℕ) → a < 2 ^ k → b < 2 ^ k → bit_xor a b < 2 ^ k
bit_xor-lt_pow zero zero zero p q = omega (arith, bit_xor_parity 0 0)
bit_xor-lt_pow zero zero (suc b) p q = absurd (omega arith)
bit_xor-lt_pow zero (suc a) b p q = absurd (omega arith)
bit_xor-lt_pow (suc k) a b p q = omega (
  arith,
  pow-suc 2 k,
  bit_xor_parity a b,
  bit_xor-lt_pow k (a / 2) (b / 2) (omega (arith, pow-suc 2 k)) (omega (arith, pow-suc 2 k)),
)

-- Fuel bounds the first operand, where the digits of the operands run out.
bit_xor_assoc_fuel :
    (n a b c : ℕ) → a ≤ n → b ≤ n → c ≤ n → bit_xor (bit_xor a b) c ≡ bit_xor a (bit_xor b c)
bit_xor_assoc_fuel zero zero zero zero p q r = refl
bit_xor_assoc_fuel zero (suc a) b c p q r = absurd (omega arith)
bit_xor_assoc_fuel zero zero (suc b) c p q r = absurd (omega arith)
bit_xor_assoc_fuel zero zero zero (suc c) p q r = absurd (omega arith)
bit_xor_assoc_fuel (suc n) a b c p q r =
    let left : bit_xor (bit_xor a b) c
        ≡ bit_xor (bit_xor (a / 2) (b / 2)) (c / 2) * 2 + (bit_xor a b + c) % 2 =
      rw (sym (bit_xor-half a b)) (bit_xor_parity (bit_xor a b) c) in
    let right : bit_xor a (bit_xor b c)
        ≡ bit_xor (a / 2) (bit_xor (b / 2) (c / 2)) * 2 + (a + bit_xor b c) % 2 =
      rw (sym (bit_xor-half b c)) (bit_xor_parity a (bit_xor b c)) in
    let halves =
      bit_xor_assoc_fuel n (a / 2) (b / 2) (c / 2) (omega arith) (omega arith) (omega arith) in
    omega (arith, left, right, halves, bit_xor_odd a b, bit_xor_odd b c)

pub bit_xor_assoc : (a b c : ℕ) → bit_xor (bit_xor a b) c ≡ bit_xor a (bit_xor b c)
bit_xor_assoc a b c = bit_xor_assoc_fuel (a + b + c) a b c (omega arith) (omega arith) (omega arith)

bit_xor_comm_fuel : (n a b : ℕ) → a ≤ n → b ≤ n → bit_xor a b ≡ bit_xor b a
bit_xor_comm_fuel zero zero zero p q = refl
bit_xor_comm_fuel zero (suc a) b p q = absurd (omega arith)
bit_xor_comm_fuel zero zero (suc b) p q = absurd (omega arith)
bit_xor_comm_fuel (suc n) a b p q = omega (
  arith,
  bit_xor_parity a b,
  bit_xor_parity b a,
  bit_xor_comm_fuel n (a / 2) (b / 2) (omega arith) (omega arith),
)

pub bit_xor_comm : (a b : ℕ) → bit_xor a b ≡ bit_xor b a
bit_xor_comm a b = bit_xor_comm_fuel (a + b) a b (omega arith) (omega arith)

bit_xor_self_fuel : (n a : ℕ) → a ≤ n → bit_xor a a ≡ 0
bit_xor_self_fuel zero zero p = refl
bit_xor_self_fuel zero (suc a) p = absurd (omega arith)
bit_xor_self_fuel (suc n) a p =
    omega (arith, bit_xor_parity a a, bit_xor_self_fuel n (a / 2) (omega arith))

pub bit_xor_self : (a : ℕ) → bit_xor a a ≡ 0
bit_xor_self a = bit_xor_self_fuel a a (omega arith)

bit_xor-zero_fuel : (n a : ℕ) → a ≤ n → bit_xor a 0 ≡ a
bit_xor-zero_fuel zero zero p = refl
bit_xor-zero_fuel zero (suc a) p = absurd (omega arith)
bit_xor-zero_fuel (suc n) a p =
    omega (arith, bit_xor_parity a 0, bit_xor-zero_fuel n (a / 2) (omega arith))

pub bit_xor-zero : (a : ℕ) → bit_xor a 0 ≡ a
bit_xor-zero a = bit_xor-zero_fuel a a (omega arith)

undo : (a b : ℕ) → bit_xor (bit_xor a b) b ≡ a
undo a b = rw (bit_xor_assoc a b b, bit_xor_self b) (bit_xor-zero a)

pub bit_xor-cancel_right : {a b : ℕ} (c : ℕ) → bit_xor a c ≡ bit_xor b c → a ≡ b
bit_xor-cancel_right {a} {b} c e = sym (undo a c) ∙ ap (λ (x : ℕ). bit_xor x c) e ∙ undo b c

pub bit_xor-cancel_left : {a b : ℕ} (c : ℕ) → bit_xor c a ≡ bit_xor c b → a ≡ b
bit_xor-cancel_left {a} {b} c e = bit_xor-cancel_right c (bit_xor_comm a c ∙ e ∙ bit_xor_comm c b)

-- A digit past those of the other operand stays.
pub bit_xor_high : (k a b : ℕ) → a < 2 ^ k → b < 2 ^ k → bit_xor a (2 ^ k + b) ≡ 2 ^ k + bit_xor a b
bit_xor_high zero zero zero p q = refl
bit_xor_high zero zero (suc b) p q = absurd (omega arith)
bit_xor_high zero (suc a) b p q = absurd (omega arith)
bit_xor_high (suc k) a b p q =
    let split : (2 ^ suc k + b) / 2 ≡ 2 ^ k + b / 2 = omega (arith, pow-suc 2 k) in
    let digits : bit_xor a (2 ^ suc k + b)
        ≡ bit_xor (a / 2) (2 ^ k + b / 2) * 2 + (a + (2 ^ suc k + b)) % 2 =
      rw (sym split) (bit_xor_parity a (2 ^ suc k + b)) in
    omega (
      arith,
      digits,
      bit_xor_parity a b,
      pow-suc 2 k,
      bit_xor_high k (a / 2) (b / 2) (omega (arith, pow-suc 2 k)) (omega (arith, pow-suc 2 k)),
    )

-- The low digits and the high ones.
pub bit_xor_split : (k low high : ℕ) → low < 2 ^ k → bit_xor low (high * 2 ^ k) ≡ low + high * 2 ^ k
bit_xor_split zero zero high p =
    let plain : high * 2 ^ 0 ≡ high = omega arith in
    rw plain (omega (arith, bit_xor-zero high, bit_xor_comm 0 high))
bit_xor_split zero (suc low) high p = absurd (omega arith)
bit_xor_split (suc k) low high p =
    let shift : high * 2 ^ suc k ≡ 2 * (high * 2 ^ k) =
      omega (arith, ap (λ (power : ℕ). high * power) (pow-suc 2 k)) in
    let split : high * 2 ^ suc k / 2 ≡ high * 2 ^ k = omega (arith, shift) in
    let digits : bit_xor low (high * 2 ^ suc k)
        ≡ bit_xor (low / 2) (high * 2 ^ k) * 2 + (low + high * 2 ^ suc k) % 2 =
      rw (sym split) (bit_xor_parity low (high * 2 ^ suc k)) in
    omega (arith, digits, shift, bit_xor_split k (low / 2) high (omega (arith, pow-suc 2 k)))
