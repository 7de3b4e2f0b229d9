-- ===== src/Mgbx/Cpu/Alu/Decimal.antt =====
-- DAA after an addition or a subtraction of two decimal numbers of two digits.
use aarch.Prelude.{
  ℕ, ◌+◌, ◌-◌, ◌*◌, ◌/◌, ◌%◌, ◌≤◌, ◌<◌, ◌≡◌, refl, ◌∙◌, arith, bit_and_mask, ◌==◌, ltb, leb,
  if◌then◌else◌, Bool, true, false, ◌&&◌, ◌||◌, not,
}
use aarch.Mgbx.State.{Cpu}
use aarch.Mgbx.Cpu.Alu.{add8, sub8, daa}
use aarch.Mgbx.Cpu.Alu.Sums.{flags, carry_of, add8_lem, sub8_lem}

-- Two digits in the halves of a byte.
abbrev pub bcd : ℕ → ℕ
bcd n = n / 10 * 16 + n % 10

-- A and C after DAA, from A and the flags N, H and C before it.
unfoldable adjusted : ℕ → Bool → Bool → Bool → ℕ × Bool
adjusted a n h c =
    let low = if h || (not n && ltb 9 (a % 16)) then 6 else 0 in
    let high = c || (not n && ltb 0x99 a) in
    let adjust = low + (if high then 0x60 else 0) in
    (if n then (a + 256 - adjust) % 256 else (a + adjust) % 256, high)

daa_lem :
    (c : Cpu) (z n h k : Bool)
    → c.a < 256
    → c.f ≡ flags z n h k
    → ((daa c).a ≡ (adjusted c.a n h k).0) × (carry_of (daa c) ≡ (adjusted c.a n h k).1)
unfolding daa adjusted
daa_lem c z n h k small e =
    rw e (ground (arith, bit_and_mask 4 c.a), ground (arith, bit_and_mask 4 c.a))

adjusted_sum :
    (m n k : ℕ)
    → m < 100
    → n < 100
    → k ≤ 1
    → let sum = bcd m + bcd n + k in
      let got = adjusted (sum % 256) false (leb 16 (bcd m % 16 + bcd n % 16 + k)) (leb 256 sum) in
      (got.0 ≡ bcd ((m + n + k) % 100)) × (got.1 ≡ leb 100 (m + n + k))
unfolding adjusted
adjusted_sum m n k hm hn hk = (ground arith, ground arith)

adjusted_difference :
    (m n k : ℕ)
    → m < 100
    → n < 100
    → k ≤ 1
    → let res = (bcd m + 512 - bcd n - k) % 256 in
      let got = adjusted res true (ltb (bcd m % 16) (bcd n % 16 + k)) (ltb (bcd m) (bcd n + k)) in
      (got.0 ≡ bcd ((m + 100 - n - k) % 100)) × (got.1 ≡ ltb m (n + k))
unfolding adjusted
adjusted_difference m n k hm hn hk = (ground arith, ground arith)

-- Adding two numbers below 100 and a carry as decimal bytes, and DAA on the sum in A, leaves the
-- decimal sum modulo 100 in A and its carry in C.
pub daa-add8 :
    (c : Cpu) (m n k : ℕ)
    → m < 100
    → n < 100
    → k ≤ 1
    → let (r, c') = add8 c (bcd m) (bcd n) k in
      let d = daa (record c' { a = r }) in
      (d.a ≡ bcd ((m + n + k) % 100)) × (carry_of d ≡ leb 100 (m + n + k))
daa-add8 c m n k hm hn hk =
    let sum = bcd m + bcd n + k in
    let half = leb 16 (bcd m % 16 + bcd n % 16 + k) in
    let adjust =
      daa_lem (record c { a = sum % 256; f = flags (sum % 256 == 0) false half (leb 256 sum) })
        (sum % 256 == 0) false half (leb 256 sum) (omega arith) refl in
    let decimal = adjusted_sum m n k hm hn hk in
    rw (add8_lem c (bcd m) (bcd n) k (omega arith) (omega arith) hk)
      (adjust.0 ∙ decimal.0, adjust.1 ∙ decimal.1)

-- Subtracting one number below 100, and a borrow, from another as decimal bytes, and DAA on the
-- difference in A, leaves the decimal difference modulo 100 in A and its borrow in C.
pub daa-sub8 :
    (c : Cpu) (m n k : ℕ)
    → m < 100
    → n < 100
    → k ≤ 1
    → let d = daa (sub8 c (bcd m) (bcd n) k true).1 in
      (d.a ≡ bcd ((m + 100 - n - k) % 100)) × (carry_of d ≡ ltb m (n + k))
daa-sub8 c m n k hm hn hk =
    let res = (bcd m + 512 - bcd n - k) % 256 in
    let half = ltb (bcd m % 16) (bcd n % 16 + k) in
    let borrow = ltb (bcd m) (bcd n + k) in
    let adjust =
      daa_lem (record c { a = res; f = flags (res == 0) true half borrow }) (res == 0) true half
        borrow (omega arith) refl in
    let decimal = adjusted_difference m n k hm hn hk in
    rw (sub8_lem c (bcd m) (bcd n) k true (omega arith) (omega arith) hk)
      (adjust.0 ∙ decimal.0, adjust.1 ∙ decimal.1)
