-- ===== src/Mgbx/Machine/Valid.antt =====
-- The well-formed machines: a loaded cartridge, every 8-bit and 16-bit field within its width, and
-- an OAM DMA, while it runs, inside OAM.
use aarch.Prelude.{◌^◌, ◌<◌, ◌≡◌, ◌⊎◌, IsBytes, Option, some}
use aarch.Mgbx.State.{Mgbx, Mem, Ppu, Timer, Apu, Cpu}
use aarch.Mgbx.Cart.Bounds.{IsValid as CartIsValid}
use aarch.Mgbx.Bus.Bounds.{MemHoldsBytes, PpuHoldsBytes}
use aarch.Mgbx.Bus.Bounds.{IsValid as BusIsValid}

abbrev pub CpuInRange : Cpu → Type 0
CpuInRange c =
    (c.a < 256)
    × (c.f < 256)
    × (c.b < 256)
    × (c.c < 256)
    × (c.d < 256)
    × (c.e < 256)
    × (c.h < 256)
    × (c.l < 256)
    × (c.sp < 2 ^ 16)
    × (c.pc < 2 ^ 16)

-- The DMA is off, or its next byte is inside OAM.
abbrev pub DmaInRange : Mem → Type 0
DmaInRange mem = (mem.dma_value < 256) × ((mem.dma_active ≡ 0) ⊎ (mem.dma_index < 160))

abbrev pub MemInRange : Mem → Type 0
MemInRange mem = MemHoldsBytes mem × DmaInRange mem

abbrev pub TimerInRange : Timer → Type 0
TimerInRange tm = (tm.tima < 256) × (tm.tma < 256) × (tm.tac < 256)

pub record PpuIsValid (ppu : Ppu) : Type 0 where
  pub vram : IsBytes ppu.vram
  pub oam : IsBytes ppu.oam
  pub registers : PpuHoldsBytes ppu

pub record MemIsValid (mem : Mem) : Type 0 where
  pub wram : IsBytes mem.wram
  pub hram : IsBytes mem.hram
  pub registers : MemInRange mem

pub record ApuIsValid (apu : Apu) : Type 0 where
  pub wave_ram : IsBytes apu.wave_ram
  pub mixer : (apu.nr50 < 256) × (apu.nr51 < 256)

pub record IsValid (gb : Mgbx) : Type 0 where
  pub cart : CartIsValid gb.cart
  pub ppu : PpuIsValid gb.ppu
  pub mem : MemIsValid gb.mem
  pub timer : TimerInRange gb.timer
  pub apu : ApuIsValid gb.apu
  pub cpu : CpuInRange gb.cpu

pub IsValid→BusIsValid : {gb : Mgbx} → IsValid gb → BusIsValid gb
IsValid→BusIsValid v = record {
  cart = v.cart;
  vram = v.ppu.vram;
  oam = v.ppu.oam;
  wram = v.mem.wram;
  hram = v.mem.hram;
  mem = v.mem.registers.0;
  ppu = v.ppu.registers;
  tima = v.timer.0;
  tma = v.timer.1;
  tac = v.timer.2;
  wave_ram = v.apu.wave_ram;
  nr50 = v.apu.mixer.0;
  nr51 = v.apu.mixer.1;
}

-- A part of a valid machine is replaced by a valid one.
pub with_cpu : {gb : Mgbx} {c : Cpu} → IsValid gb → CpuInRange c → IsValid (record gb { cpu = c })
with_cpu v h = record {
  cart = v.cart;
  ppu = v.ppu;
  mem = v.mem;
  timer = v.timer;
  apu = v.apu;
  cpu = h;
}

pub with_mem : {gb : Mgbx} {m : Mem} → IsValid gb → MemIsValid m → IsValid (record gb { mem = m })
with_mem v h = record {
  cart = v.cart;
  ppu = v.ppu;
  mem = h;
  timer = v.timer;
  apu = v.apu;
  cpu = v.cpu;
}

pub with_ppu : {gb : Mgbx} {p : Ppu} → IsValid gb → PpuIsValid p → IsValid (record gb { ppu = p })
with_ppu v h = record {
  cart = v.cart;
  ppu = h;
  mem = v.mem;
  timer = v.timer;
  apu = v.apu;
  cpu = v.cpu;
}

-- The registers of the memory change, and its arrays do not.
pub with_registers :
    {mem mem' : Mem}
    → MemIsValid mem
    → mem'.wram ≡ mem.wram
    → mem'.hram ≡ mem.hram
    → MemInRange mem'
    → MemIsValid mem'
with_registers v e e' h = record {
  wram = λ i. rw e (v.wram i);
  hram = λ i. rw e' (v.hram i);
  registers = h;
}

-- The operation stays inside its arrays and gives a valid machine.
abbrev pub Kept : Option Mgbx → Type 0
Kept o = (gb : Mgbx) × (o ≡ some gb) × IsValid gb
