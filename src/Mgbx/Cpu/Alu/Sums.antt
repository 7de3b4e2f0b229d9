-- ===== src/Mgbx/Cpu/Alu/Sums.antt =====
-- What the arithmetic of the SM83 computes, in numbers.
use aarch.Prelude.{
  ℕ, ◌+◌, ◌-◌, ◌*◌, ◌/◌, ◌%◌, ◌^◌, ◌≤◌, ◌<◌, ◌≡◌, arith, bit_and_mask, bit_and_pow, bit_or_fields,
  nonzero, ◌==◌, ltb, leb, of_bool, if◌then◌else◌, Bool, true, false,
}
use aarch.Mgbx.State.{Cpu}
use aarch.Mgbx.Cpu.{hl}
use aarch.Mgbx.Cpu.Alu.{add8, sub8, inc8, dec8, add_hl, add_sp_e8}

-- F from its four flags.
abbrev pub flags : Bool → Bool → Bool → Bool → ℕ
flags z n h c = 128 * of_bool z + 64 * of_bool n + 32 * of_bool h + 16 * of_bool c

-- The carry of F.
abbrev pub carry_of : Cpu → Bool
carry_of c = nonzero (c.f / 16 % 2)

-- ADD and ADC: the sum modulo 256, H on a carry out of the lower half, C on a carry out of the
-- byte, Z on a sum of 0, N clear; nothing else of the CPU changes.
pub add8_lem :
    (c : Cpu) (x y carry : ℕ)
    → x < 256
    → y < 256
    → carry ≤ 1
    → let sum = x + y + carry in
      add8 c x y carry ≡ (
        sum % 256,
        record c {
          f = flags (sum % 256 == 0) false (leb 16 (x % 16 + y % 16 + carry)) (leb 256 sum);
        },
      )
unfolding add8
add8_lem c x y carry hx hy hc = ground (arith, bit_and_mask 4 x, bit_and_mask 4 y)

-- SUB, SBC and CP: the difference modulo 256, H on a borrow from the upper half, C on a borrow into
-- the byte, Z on equal sides, N set; A is replaced unless the operation is a comparison.
pub sub8_lem :
    (c : Cpu) (x y borrow : ℕ) (keep : Bool)
    → x < 256
    → y < 256
    → borrow ≤ 1
    → let res = (x + 512 - y - borrow) % 256 in
      let f = flags (res == 0) true (ltb (x % 16) (y % 16 + borrow)) (ltb x (y + borrow)) in
      sub8 c x y borrow keep ≡ (res, record c { f = f; a = if keep then res else c.a })
unfolding sub8
sub8_lem c x y borrow keep hx hy hb = ground (arith, bit_and_mask 4 x, bit_and_mask 4 y)

-- INC and DEC keep the carry, and set H on a step over the lower half.
pub inc8-dec8 :
    (c : Cpu) (v : ℕ)
    → v < 256
    → c.f < 256
    → (inc8 c v
        ≡ ((v + 1) % 256, record c { f = flags (v == 255) false (v % 16 == 15) (carry_of c) }))
      × (dec8 c v
          ≡ ((v + 255) % 256, record c { f = flags (v == 1) true (v % 16 == 0) (carry_of c) }))
unfolding inc8 dec8
inc8-dec8 c v hv hf = (
  ground (arith, bit_and_mask 4 v, bit_and_pow 4 c.f),
  ground (arith, bit_and_mask 4 v, bit_and_pow 4 c.f),
)

hl_lem : (c : Cpu) → c.h < 256 → c.l < 256 → hl c ≡ c.h * 256 + c.l
hl_lem c hh hl' = ground (arith, bit_or_fields 8 c.h c.l hl')

-- ADD HL: the 16-bit sum, H on a carry out of bit 11, C on a carry out of bit 15, Z kept.
pub add_hl_lem :
    (c : Cpu) (v : ℕ)
    → c.h < 256
    → c.l < 256
    → c.f < 256
    → v < 2 ^ 16
    → let hlv = c.h * 256 + c.l in
      let f =
        flags
          (nonzero (c.f / 128 % 2))
          false
          (leb 0x1000 (hlv % 0x1000 + v % 0x1000))
          (leb 0x1_0000 (hlv + v)) in
      add_hl c v ≡ record c { f = f; h = (hlv + v) / 256 % 256; l = (hlv + v) % 256 }
unfolding add_hl
add_hl_lem c v hh low hf hv =
    let sum = hl_lem c hh low in
    rw sum (ground (arith, bit_and_mask 12 v, bit_and_mask 12 (c.h * 256 + c.l), bit_and_pow 7 c.f))

-- ADD SP,e8 and LD HL,SP+e8: SP plus the signed byte, modulo 2 ^ 16, in SP or in HL, with H and C
-- from the lower byte of SP and the unsigned byte, and Z and N clear.
pub add_sp_e8_lem :
    (c : Cpu) (e : ℕ) (write_hl : Bool)
    → c.sp < 2 ^ 16
    → e < 256
    → let result = (c.sp + (if ltb e 128 then e else 0x1_0000 + e - 256)) % 2 ^ 16 in
      let f = flags false false (leb 16 (c.sp % 16 + e % 16)) (leb 256 (c.sp % 256 + e)) in
      add_sp_e8 c e write_hl ≡ (
        result,
        if write_hl
            then record c { f = f; h = result / 256; l = result % 256 }
            else record c { f = f; sp = result },
      )
unfolding add_sp_e8
add_sp_e8_lem c e write_hl hs he =
    ground (arith, bit_and_mask 4 c.sp, bit_and_mask 8 c.sp, bit_and_mask 4 e, bit_and_pow 7 e)
