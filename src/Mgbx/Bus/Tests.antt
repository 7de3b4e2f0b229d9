-- ===== src/Mgbx/Bus/Tests.antt =====
-- Runs of the bus.
use aarch.Prelude.{◌≡◌, refl, arith, some}
use aarch.Mgbx.State.{Mgbx}
use aarch.Mgbx.Fixtures.{machine}
use aarch.Mgbx.Cart.Bounds.{InByte}
use aarch.Mgbx.Cart.Sample.{mbc5-IsValid}
use aarch.Mgbx.Bus.{bus_read, bus_write, start_dma}
use aarch.Mgbx.Bus.Ram.{bus_read-bus_write}
use aarch.Mgbx.Bus.Bounds.{IsValid, bus_read-InByte}

machine-IsValid : IsValid machine
machine-IsValid = record {
  cart = mbc5-IsValid;
  vram = λ i. omega arith;
  oam = λ i. omega arith;
  wram = λ i. omega arith;
  hram = λ i. omega arith;
  mem = omega arith;
  ppu = omega arith;
  tima = omega arith;
  tma = omega arith;
  tac = omega arith;
  wave_ram = λ i. omega arith;
  nr50 = omega arith;
  nr51 = omega arith;
}

bus_read-InByte_example : InByte (bus_read machine 0x4123)
bus_read-InByte_example = bus_read-InByte machine 0x4123 machine-IsValid

-- A byte that is written to WRAM is read in its echo.
bus_read-bus_write_example :
    (gb' : Mgbx) × (bus_write machine 0xc123 0x5a ≡ some gb') × (bus_read gb' 0xe123 ≡ some 0x5a)
bus_read-bus_write_example = bus_read-bus_write machine 0xc123 0xe123 0x5a refl refl

-- The page of an OAM DMA is at most 0xf1.
start_dma_page : (gb' : Mgbx) × (start_dma machine 0xff ≡ some gb') × (gb'.mem.oam_dma_page ≡ 0xf1)
unfolding start_dma bus_read
start_dma_page = (_, refl, refl)
