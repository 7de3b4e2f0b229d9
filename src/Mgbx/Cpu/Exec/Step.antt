-- ===== src/Mgbx/Cpu/Exec/Step.antt =====
-- src/mgbx/cpu.c: `gb_cpu_step` and `gb_cpu_reset_for_no_bootrom`.
use mathlib.Core.Option
use aarch.Prelude.{
  ℕ, ◌+◌, ◌*◌, ◌%◌, ◌^◌, bit_and, u8, u16, nonzero, leb, if◌then◌else◌, ◌&&◌, not, Bool, some,
}
use aarch.Mgbx.State.{Mgbx, Cpu}
use aarch.Mgbx.Machine.{
  Machine, pure, when◌then◌else◌, modify_mem, ◌>>=◌, ◌>>◌, rd, get_cpu, modify_cpu,
}
use aarch.Mgbx.Ppu.{oam_write}
use aarch.Mgbx.Cpu.Interrupts.{dispatch_interrupt}
use aarch.Mgbx.Cpu.Exec.{exec}

-- `gb_ppu_oam_write(&gb->ppu, (uint16_t)a, v);`
unfoldable pub write_oam : ℕ → ℕ → Machine (Unit {0})
write_oam a v gb =
    Option.map (λ gb'. (tt, gb'))
      (Option.map (λ ppu. record gb { ppu = ppu }) (oam_write gb.ppu a v))

-- After a byte of an OAM DMA: the end, or the read of the next byte.
unfoldable pub dma_next : ℕ → ℕ → Machine ℕ
dma_next page index =
    when leb 160 index
    then (do modify_mem (λ m. record m { dma_index = index; dma_active = 0 }); pure 4)
    else (do
      modify_mem (λ m. record m { dma_index = index })
      v ← rd (u16 (page * 0x100 + index))
      modify_mem (λ m. record m { dma_value = v })
      pure 4)

-- The M-cycle of an OAM DMA.
unfoldable pub dma_step : Machine ℕ
dma_step gb =
    let mem = gb.mem in
    (do
      write_oam (u16 (0xfe00 + mem.dma_index)) mem.dma_value
      dma_next mem.oam_dma_page (u8 (mem.dma_index + 1)))
      gb

abbrev pub pending : Mgbx → Bool
pending gb = nonzero (bit_and (bit_and gb.mem.if_reg gb.mem.ie) 0x1f)

-- `if (dispatch_interrupt(gb)) …`, with the cycles of both cases.
unfoldable pub dispatch : ℕ → ℕ → Machine ℕ
dispatch taken otherwise = do d ← dispatch_interrupt; pure (if d then taken else otherwise)

-- A step in STOP or HALT: `wake` is the assignment that leaves it.
unfoldable pub sleep : (Cpu → Cpu) → Machine ℕ
sleep wake gb =
    (when pending gb
        then (do modify_cpu wake; c ← get_cpu; when nonzero c.ime then dispatch 20 4 else pure 4)
        else pure 4)
      gb

-- `if (c->ime_pending) …`
unfoldable pub take_ei : Cpu → Cpu
take_ei c = if nonzero c.ime_pending then record c { ime_pending = 0; ime = 1 } else c

-- The address of the next instruction, unless the halt bug holds it.
unfoldable pub advance : Cpu → Cpu
advance c =
    if nonzero c.halt_bug then record c { halt_bug = 0 } else record c { pc = u16 (c.pc + 1) }

unfoldable pub count : ℕ → Machine (Unit {0})
count t gb = some (tt, record gb { total_cycles = (gb.total_cycles + t) % 2 ^ 64 })

unfoldable pub run_instruction : Machine ℕ
run_instruction = do
  modify_cpu take_ei
  c ← get_cpu
  op ← rd c.pc
  modify_cpu advance
  t ← exec op
  count t
  c' ← get_cpu
  when nonzero c'.ime && (not (nonzero c'.halted) && not (nonzero c'.stopped))
      then dispatch (t + 20) t
      else pure t

-- `gb_cpu_step`: the cycles of the step.
unfoldable pub cpu_step : Machine ℕ
cpu_step gb =
    (when nonzero gb.mem.dma_active
        then dma_step
        else when nonzero gb.cpu.stopped
        then sleep (λ c. record c { stopped = 0 })
        else when nonzero gb.cpu.halted
        then sleep (λ c. record c { halted = 0 })
        else run_instruction)
      gb

-- `gb_cpu_reset_for_no_bootrom`, which writes every field.
abbrev pub cpu_reset : Cpu
cpu_reset = record {
  a = 0x01;
  f = 0xb0;
  b = 0x00;
  c = 0x13;
  d = 0x00;
  e = 0xd8;
  h = 0x01;
  l = 0x4d;
  sp = 0xfffe;
  pc = 0x0100;
  ime = 0;
  ime_pending = 0;
  halted = 0;
  stopped = 0;
  halt_bug = 0;
}
