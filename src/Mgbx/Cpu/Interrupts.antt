-- ===== src/Mgbx/Cpu/Interrupts.antt =====
-- src/mgbx/cpu.c: the stack, and the dispatch of an interrupt.
pub mod Stack
use aarch.Prelude.{
  ℕ, zero, suc, ◌+◌, ◌-◌, ◌*◌, ◌^◌, bit_and, bit_or, u8, u16, not8, ◌<<<◌, ◌>>>◌, nonzero, ◌==◌,
  if◌then◌else◌, Bool, true, false, Option, none, some, ◌>>=◌,
}
use mathlib.Core.Option
use aarch.Mgbx.State.{Mgbx, Cpu, Mem}
use aarch.Mgbx.Bus.{bus_read, bus_write}

-- `none` is an access outside of an array.
unfoldable pub push16 : Mgbx → ℕ → Option Mgbx
push16 gb v = do
  let sp = u16 (gb.cpu.sp + 2 ^ 16 - 1)
  gb1 ← bus_write (record gb { cpu = record (gb.cpu) { sp = sp } }) sp (u8 (v >>> 8))
  let sp' = u16 (sp + 2 ^ 16 - 1)
  bus_write (record gb1 { cpu = record (gb1.cpu) { sp = sp' } }) sp' (u8 v)

unfoldable pub pop16 : Mgbx → Option (ℕ × Mgbx)
pop16 gb = do
  lo ← bus_read gb gb.cpu.sp
  let sp = u16 (gb.cpu.sp + 1)
  hi ← bus_read gb sp
  some (u16 (bit_or (hi <<< 8) lo), record gb { cpu = record (gb.cpu) { sp = u16 (sp + 1) } })

-- The loop over the bits, from `bit` on, with the number of bits left.
unfoldable pub take_interrupt : ℕ → ℕ → ℕ → Mgbx → Option (Bool × Mgbx)
take_interrupt zero bit pending gb = some (false, gb)
take_interrupt (suc left) bit pending gb = elim (nonzero (bit_and pending (2 ^ bit))) [
  | false ↦ take_interrupt left (bit + 1) pending gb
  | true ↦
      Option.map
        (λ gb'. (
          true,
          record gb' {
            cpu = record (gb'.cpu) {
              pc = u16 (0x0040 + bit * 8);
              ime = 0;
              ime_pending = 0;
              halted = 0;
              stopped = 0;
            };
          },
        ))
        (push16
          (record gb { mem = record (gb.mem) { if_reg = bit_and gb.mem.if_reg (not8 (2 ^ bit)) } })
          gb.cpu.pc)
]

unfoldable pub dispatch_interrupt : Mgbx → Option (Bool × Mgbx)
dispatch_interrupt gb =
    let pending = bit_and (bit_and gb.mem.if_reg gb.mem.ie) 0x1f in
    if pending == 0 then some (false, gb) else take_interrupt 5 0 pending gb
