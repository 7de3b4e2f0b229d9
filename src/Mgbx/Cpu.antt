-- ===== src/Mgbx/Cpu.antt =====
-- src/mgbx/cpu.c: the register file of the SM83.
pub mod Alu
pub mod Interrupts
pub mod Exec
mod Tests
use aarch.Prelude.{ℕ, bit_and, bit_or, u8, u16, ◌<<<◌, ◌>>>◌}
use aarch.Mgbx.State.{Cpu}

-- The flags of F.
abbrev pub fz : ℕ
fz = 0x80

abbrev pub fn : ℕ
fn = 0x40

abbrev pub fh : ℕ
fh = 0x20

abbrev pub fc : ℕ
fc = 0x10

abbrev pub bc : Cpu → ℕ
bc c = u16 (bit_or (c.b <<< 8) c.c)

abbrev pub de : Cpu → ℕ
de c = u16 (bit_or (c.d <<< 8) c.e)

abbrev pub hl : Cpu → ℕ
hl c = u16 (bit_or (c.h <<< 8) c.l)

abbrev pub af : Cpu → ℕ
af c = u16 (bit_or (c.a <<< 8) (bit_and c.f 0xf0))

abbrev pub set_bc : Cpu → ℕ → Cpu
set_bc c v = record c { b = u8 (v >>> 8); c = u8 v }

abbrev pub set_de : Cpu → ℕ → Cpu
set_de c v = record c { d = u8 (v >>> 8); e = u8 v }

abbrev pub set_hl : Cpu → ℕ → Cpu
set_hl c v = record c { h = u8 (v >>> 8); l = u8 v }
