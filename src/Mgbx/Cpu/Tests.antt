-- ===== src/Mgbx/Cpu/Tests.antt =====
-- Runs of the arithmetic of the SM83, of its stack and of the interrupt dispatch.
use aarch.Prelude.{ℕ, Bool, some, ◌≡◌, refl, arith, true, false}
use mathlib.Core.Option
use aarch.Mgbx.State.{Mgbx}
use aarch.Mgbx.Fixtures.{boot_cpu, machine}
use aarch.Mgbx.Bus.{bus_write, write_high}
use aarch.Mgbx.Cpu.Interrupts.{push16, pop16, take_interrupt, dispatch_interrupt}
use aarch.Mgbx.Cpu.Interrupts.Stack.{pop16-push16}
use aarch.Mgbx.Cpu.Alu.{add8, and8, or8, xor8, daa}
use aarch.Mgbx.Cpu.Alu.Sums.{carry_of}
use aarch.Mgbx.Cpu.Alu.Decimal.{daa-add8}

-- 45 + 38 = 83 in decimal bytes.
daa-add8_example :
    let (r, c') = add8 boot_cpu 0x45 0x38 0 in
    let d = daa (record c' { a = r }) in (d.a ≡ 0x83) × (carry_of d ≡ false)
daa-add8_example = daa-add8 boot_cpu 45 38 0 (omega arith) (omega arith) (omega arith)

-- The logical operations: AND sets H, and a result of 0 sets Z.
and8_zero : and8 boot_cpu 0x0f 0xf0 ≡ (0, record boot_cpu { f = 0xa0 })
unfolding and8
and8_zero = refl

or8_zero : or8 boot_cpu 0 0 ≡ (0, record boot_cpu { f = 0x80 })
unfolding or8
or8_zero = refl

xor8_self : xor8 boot_cpu 0x5a 0x5a ≡ (0, record boot_cpu { f = 0x80 })
unfolding xor8
xor8_self = refl

-- The stack pointer starts in HRAM.
pop16-push16_example :
    (gb' : Mgbx) × (push16 machine 0x1234 ≡ some gb')
    × (pop16 gb' ≡ some (0x1234, record gb' { cpu = record (gb'.cpu) { sp = 0xfffe } }))
pop16-push16_example = pop16-push16 machine 0x1234 (omega arith) (omega arith) refl refl

abbrev pending : Mgbx
pending = record machine { mem = record (machine.mem) { ie = 0x06; if_reg = 0x07 } }

-- The vector, the stack pointer and the flags of the machine after a dispatch.
abbrev outline : Bool × Mgbx → Bool × ℕ × ℕ × ℕ
outline (taken, gb) = (taken, gb.cpu.pc, gb.cpu.sp, gb.mem.if_reg)

-- The lowest bit that is pending and enabled is taken, the STAT interrupt here.
dispatch_stat : Option.map outline (dispatch_interrupt pending) ≡ some (true, 0x48, 0xfffc, 0x05)
unfolding dispatch_interrupt take_interrupt push16 bus_write write_high
dispatch_stat = refl
