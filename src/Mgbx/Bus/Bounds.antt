-- ===== src/Mgbx/Bus/Bounds.antt =====
-- Memory safety of the bus: a read, at any address, stays in its array and gives a byte.
use aarch.Prelude.{
  ℕ, ◌-◌, ◌≤◌, ◌<◌, arith, bit_and, bit_and_mask, bit_or-lt_pow, bit_and-le_left, IsBytes,
}
use aarch.Mgbx.State.{Mgbx, Mem, Ppu, Timer, Joypad}
use aarch.Mgbx.Cart.Bounds.{InByte, cart_read-InByte}
use aarch.Mgbx.Cart.Bounds.{IsValid as CartIsValid}
use aarch.Mgbx.Ppu.{vram_read, oam_read, ppu_read_reg}
use aarch.Mgbx.Joypad.{joypad_read, compose_p1, dirs, acts}
use aarch.Mgbx.Timer.{timer_read}
use aarch.Mgbx.Apu.Registers.Bounds.{apu_read-lt}
use aarch.Mgbx.Bus.{bus_read, read_high}

-- The registers and the memory hold bytes.
abbrev pub MemHoldsBytes : Mem → Type 0
MemHoldsBytes mem =
    (mem.ie < 256) × (mem.if_reg < 256) × (mem.sb < 256) × (mem.sc < 256) × (mem.oam_dma_page < 256)

abbrev pub PpuHoldsBytes : Ppu → Type 0
PpuHoldsBytes ppu =
    (ppu.lcdc < 256)
    × (ppu.stat < 256)
    × (ppu.scy < 256)
    × (ppu.scx < 256)
    × (ppu.ly < 256)
    × (ppu.lyc < 256)
    × (ppu.bgp < 256)
    × (ppu.obp0 < 256)
    × (ppu.obp1 < 256)
    × (ppu.wy < 256)
    × (ppu.wx < 256)

pub record IsValid (gb : Mgbx) : Type 0 where
  pub cart : CartIsValid gb.cart
  pub vram : IsBytes gb.ppu.vram
  pub oam : IsBytes gb.ppu.oam
  pub wram : IsBytes gb.mem.wram
  pub hram : IsBytes gb.mem.hram
  pub mem : MemHoldsBytes gb.mem
  pub ppu : PpuHoldsBytes gb.ppu
  pub tima : gb.timer.tima < 256
  pub tma : gb.timer.tma < 256
  pub tac : gb.timer.tac < 256
  pub wave_ram : IsBytes gb.apu.wave_ram
  pub nr50 : gb.apu.nr50 < 256
  pub nr51 : gb.apu.nr51 < 256

joypad_read-lt : (jp : Joypad) → joypad_read jp < 256
unfolding joypad_read compose_p1
joypad_read-lt jp = ground (
  arith,
  bit_and-le_left 0xcf (dirs jp.buttons),
  bit_and-le_left 0xcf (acts jp.buttons),
  bit_and-le_left (bit_and 0xcf (dirs jp.buttons)) (acts jp.buttons),
)

timer_read-lt :
    (tm : Timer) (addr : ℕ) → tm.tima < 256 → tm.tma < 256 → tm.tac < 256 → timer_read tm addr < 256
unfolding timer_read
timer_read-lt tm addr h k l = ground (arith, bit_or-lt_pow 8 tm.tac 0xf8)

ppu_read_reg-lt : (ppu : Ppu) (addr : ℕ) → PpuHoldsBytes ppu → ppu_read_reg ppu addr < 256
unfolding ppu_read_reg
ppu_read_reg-lt ppu addr h = ground arith

read_high-InByte : (gb : Mgbx) (addr : ℕ) → 0xff00 ≤ addr → IsValid gb → InByte (read_high gb addr)
unfolding read_high
read_high-InByte gb addr low v = ground (
  arith,
  joypad_read-lt gb.joypad,
  v.mem,
  timer_read-lt gb.timer addr v.tima v.tma v.tac,
  apu_read-lt gb.apu addr v.wave_ram v.nr50 v.nr51,
  ppu_read_reg-lt gb.ppu addr v.ppu,
  v.hram (addr - 0xff80),
)

-- On a machine with a loaded cartridge, and bytes in its memory and registers, a read of the bus,
-- at any address, stays in the array that it reads and gives a byte.
pub bus_read-InByte : (gb : Mgbx) (addr : ℕ) → IsValid gb → InByte (bus_read gb addr)
unfolding bus_read vram_read oam_read
bus_read-InByte gb addr v = ground (
  arith,
  cart_read-InByte addr v.cart,
  v.vram (addr - 0x8000),
  v.wram (bit_and addr 0x1fff),
  bit_and_mask 13 addr,
  v.oam (addr - 0xfe00),
  read_high-InByte gb addr,
)
