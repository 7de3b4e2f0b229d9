-- ===== src/Mgbx/Cpu/Exec/Arithmetic.antt =====
-- src/mgbx/cpu.c, `exec`: the arithmetic, the rotations of A, and the flags.
use aarch.Prelude.{
  ℕ, ◌+◌, ◌-◌, ◌^◌, bit_and, bit_or, u8, u16, ◌<<<◌, ◌>>>◌, nonzero, ◌==◌, not8, if◌then◌else◌,
  ◌||◌, true, false,
}
use aarch.Mgbx.State.{Cpu}
use aarch.Mgbx.Machine.{Machine, pure, when◌then◌else◌, ◌>>=◌, ◌>>◌, modify_cpu, call_cpu}
use aarch.Mgbx.Cpu.{fz, fn, fh, fc, bc, de, hl, set_bc, set_de, set_hl}
use aarch.Mgbx.Cpu.Alu.{add8, sub8, and8, or8, xor8, inc8, dec8, add_hl, daa}
use aarch.Mgbx.Cpu.Exec.Operand.{between, fetch, read_hl, write_hl, regval, setreg, hlpen}

-- `(c->f & FC) ? 1 : 0`
abbrev pub carry_in : Cpu → ℕ
carry_in c = if nonzero (bit_and c.f fc) then 1 else 0

-- `c->a = f(c, c->a, …)`
abbrev pub into_a : (Cpu → ℕ × Cpu) → Cpu → Cpu
into_a f c = let (r, c') = f c in record c' { a = r }

-- The operation of a row of eight opcodes on A and an operand.
unfoldable pub alu : ℕ → ℕ → Cpu → Cpu
alu row v =
    if row == 0
    then into_a (λ c. add8 c c.a v 0)
    else if row == 1
    then into_a (λ c. add8 c c.a v (carry_in c))
    else if row == 2
    then (λ c. (sub8 c c.a v 0 true).1)
    else if row == 3
    then (λ c. (sub8 c c.a v (carry_in c) true).1)
    else if row == 4
    then into_a (λ c. and8 c c.a v)
    else if row == 5
    then into_a (λ c. xor8 c c.a v)
    else if row == 6
    then into_a (λ c. or8 c c.a v)
    else (λ c. (sub8 c c.a v 0 false).1)

-- ADD, ADC, SUB, SBC, AND, XOR, OR and CP: eight opcodes each, from 0x80 on.
unfoldable pub exec_alu8 : ℕ → Machine ℕ → Machine ℕ
exec_alu8 op others =
    when between 0x80 0xbf op
    then (do
      v ← regval (bit_and op 7)
      modify_cpu (alu ((op >>> 3) - 0x10) v)
      pure (4 + hlpen (bit_and op 7)))
    else others

-- The same on the next byte.
unfoldable pub exec_alu8_imm : ℕ → Machine ℕ → Machine ℕ
exec_alu8_imm op others =
    when op == 0xc6
    then (do v ← fetch; modify_cpu (alu 0 v); pure 8)
    else when op == 0xce
    then (do v ← fetch; modify_cpu (alu 1 v); pure 8)
    else when op == 0xd6
    then (do v ← fetch; modify_cpu (alu 2 v); pure 8)
    else when op == 0xde
    then (do v ← fetch; modify_cpu (alu 3 v); pure 8)
    else when op == 0xe6
    then (do v ← fetch; modify_cpu (alu 4 v); pure 8)
    else when op == 0xf6
    then (do v ← fetch; modify_cpu (alu 6 v); pure 8)
    else when op == 0xee
    then (do v ← fetch; modify_cpu (alu 5 v); pure 8)
    else when op == 0xfe
    then (do v ← fetch; modify_cpu (alu 7 v); pure 8)
    else others

unfoldable pub exec_inc_dec : ℕ → Machine ℕ → Machine ℕ
exec_inc_dec op others =
    let r = bit_and (op >>> 3) 7 in
    when op == 0x04
      || (op == 0x0c || (op == 0x14 || (op == 0x1c || (op == 0x24 || (op == 0x2c || op == 0x3c)))))
    then (do v ← regval r; w ← call_cpu (λ c. inc8 c v); setreg r w; pure (4 + hlpen r))
    else when op == 0x34
    then (do v ← read_hl; w ← call_cpu (λ c. inc8 c v); write_hl w; pure 12)
    else when op == 0x05
        || (op == 0x0d
            || (op == 0x15 || (op == 0x1d || (op == 0x25 || (op == 0x2d || op == 0x3d)))))
    then (do v ← regval r; w ← call_cpu (λ c. dec8 c v); setreg r w; pure (4 + hlpen r))
    else when op == 0x35
    then (do v ← read_hl; w ← call_cpu (λ c. dec8 c v); write_hl w; pure 12)
    else others

-- `(c->f & FZ) | (cout ? FC : 0)`
abbrev pub z_and_carry : Cpu → ℕ → ℕ
z_and_carry c out = u8 (bit_or (bit_and c.f fz) (if nonzero out then fc else 0))

unfoldable pub cpl : Cpu → Cpu
cpl c = record c { a = not8 c.a; f = bit_or c.f (bit_or fn fh) }

unfoldable pub ccf : Cpu → Cpu
ccf c = record c { f = u8 (bit_or (bit_and c.f fz) (if nonzero (bit_and c.f fc) then 0 else fc)) }

unfoldable pub scf : Cpu → Cpu
scf c = record c { f = u8 (bit_or (bit_and c.f fz) fc) }

unfoldable pub rlca : Cpu → Cpu
rlca c =
    let out = u8 (c.a >>> 7) in record c { a = u8 (bit_or (c.a <<< 1) out); f = z_and_carry c out }

unfoldable pub rrca : Cpu → Cpu
rrca c =
    let out = bit_and c.a 1 in
    record c { a = u8 (bit_or (c.a >>> 1) (out <<< 7)); f = z_and_carry c out }

unfoldable pub rla : Cpu → Cpu
rla c = record c {
  a = u8 (bit_or (c.a <<< 1) (if nonzero (bit_and c.f fc) then 1 else 0));
  f = z_and_carry c (u8 (c.a >>> 7));
}

unfoldable pub rra : Cpu → Cpu
rra c = record c {
  a = u8 (bit_or (c.a >>> 1) (if nonzero (bit_and c.f fc) then 0x80 else 0));
  f = z_and_carry c (bit_and c.a 1);
}

unfoldable pub exec_rotate : ℕ → Machine ℕ → Machine ℕ
exec_rotate op others =
    when op == 0x27
    then (do modify_cpu daa; pure 4)
    else when op == 0x2f
    then (do modify_cpu cpl; pure 4)
    else when op == 0x3f
    then (do modify_cpu ccf; pure 4)
    else when op == 0x37
    then (do modify_cpu scf; pure 4)
    else when op == 0x07
    then (do modify_cpu rlca; pure 4)
    else when op == 0x0f
    then (do modify_cpu rrca; pure 4)
    else when op == 0x17
    then (do modify_cpu rla; pure 4)
    else when op == 0x1f
    then (do modify_cpu rra; pure 4)
    else others

abbrev pub up : ℕ → ℕ
up v = u16 (v + 1)

abbrev pub down : ℕ → ℕ
down v = u16 (v + 2 ^ 16 - 1)

unfoldable pub exec_alu16 : ℕ → Machine ℕ → Machine ℕ
exec_alu16 op others =
    when op == 0x09
    then (do modify_cpu (λ c. add_hl c (bc c)); pure 8)
    else when op == 0x19
    then (do modify_cpu (λ c. add_hl c (de c)); pure 8)
    else when op == 0x29
    then (do modify_cpu (λ c. add_hl c (hl c)); pure 8)
    else when op == 0x39
    then (do modify_cpu (λ c. add_hl c c.sp); pure 8)
    else when op == 0x03
    then (do modify_cpu (λ c. set_bc c (up (bc c))); pure 8)
    else when op == 0x13
    then (do modify_cpu (λ c. set_de c (up (de c))); pure 8)
    else when op == 0x23
    then (do modify_cpu (λ c. set_hl c (up (hl c))); pure 8)
    else when op == 0x33
    then (do modify_cpu (λ c. record c { sp = up c.sp }); pure 8)
    else when op == 0x0b
    then (do modify_cpu (λ c. set_bc c (down (bc c))); pure 8)
    else when op == 0x1b
    then (do modify_cpu (λ c. set_de c (down (de c))); pure 8)
    else when op == 0x2b
    then (do modify_cpu (λ c. set_hl c (down (hl c))); pure 8)
    else when op == 0x3b
    then (do modify_cpu (λ c. record c { sp = down c.sp }); pure 8)
    else others
