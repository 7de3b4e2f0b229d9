-- ===== src/Mgbx/Cpu/Alu/Rotate.antt =====
-- The shifts and rotations of the CB page.
use aarch.Prelude.{
  ℕ, ◌+◌, ◌*◌, ◌/◌, ◌%◌, ◌<◌, ◌≡◌, arith, bit_and_mask, bit_and_pow, bit_or_fields, bit_or_low,
  nonzero, ◌==◌, of_bool, Bool, false,
}
use aarch.Mgbx.State.{Cpu}
use aarch.Mgbx.Cpu.Alu.{cb_shift}
use aarch.Mgbx.Cpu.Alu.Sums.{flags, carry_of}

-- Z for a zero byte and C for the bit that left it.
abbrev moved : Cpu → ℕ → Bool → ℕ × Cpu
moved c r out = (r, record c { f = flags (r == 0) false false out })

-- The seven operations in numbers: RLC, RRC, RL, RR, SLA, SRA and SRL double or halve the byte, and
-- fill the free bit from the other end, from the carry, with 0 or with the sign. C is the bit that
-- left the byte, and H and N are clear.
pub cb_shift_lem :
    (c : Cpu) (v : ℕ)
    → v < 256
    → c.f < 256
    → let carry = of_bool (carry_of c) in
      let top = nonzero (v / 128) in
      let bottom = nonzero (v % 2) in
      (cb_shift c 0 v ≡ moved c (v * 2 % 256 + v / 128) top)
      × (cb_shift c 1 v ≡ moved c (v / 2 + v % 2 * 128) bottom)
      × (cb_shift c 2 v ≡ moved c (v * 2 % 256 + carry) top)
      × (cb_shift c 3 v ≡ moved c (v / 2 + carry * 128) bottom)
      × (cb_shift c 4 v ≡ moved c (v * 2 % 256) top)
      × (cb_shift c 5 v ≡ moved c (v / 2 + v / 128 * 128) bottom)
      × (cb_shift c 7 v ≡ moved c (v / 2) bottom)
unfolding cb_shift
cb_shift_lem c v hv hf =
    let low = bit_or_low 7 (v % 2) (v / 2) (omega arith) in
    let sign = bit_or_low 7 (v / 128) (v / 2) (omega arith) in
    let one = bit_or_low 7 1 (v / 2) (omega arith) in
    let up = bit_or_fields 1 v (v / 128) (omega arith) in
    let up_one = bit_or_fields 1 v 1 (omega arith) in
    let none = bit_or_fields 1 v 0 (omega arith) in
    let none' = bit_or_low 7 0 (v / 2) (omega arith) in
    let c4 = bit_and_pow 4 c.f in
    let b = bit_and_mask 1 v in
    let s = bit_and_pow 7 v in
    (
      ground (arith, up, b),
      ground (arith, low, b),
      ground (arith, up_one, none, c4, b),
      ground (arith, one, none', c4, b),
      ground (arith, b),
      ground (arith, sign, b, s),
      ground (arith, b),
    )
