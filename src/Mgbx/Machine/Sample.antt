-- ===== src/Mgbx/Machine/Sample.antt =====
-- The machine of the tests is valid.
use aarch.Prelude.{arith}
use aarch.Mgbx.Fixtures.{machine}
use aarch.Mgbx.Cart.Sample.{mbc5-IsValid}
use aarch.Mgbx.Machine.Valid.{IsValid}

pub machine-IsValid : IsValid machine
machine-IsValid = record {
  cart = mbc5-IsValid;
  ppu = record { vram = λ i. omega arith; oam = λ i. omega arith; registers = omega arith };
  mem = record { wram = λ i. omega arith; hram = λ i. omega arith; registers = ground arith };
  timer = omega arith;
  apu = record { wave_ram = λ i. omega arith; mixer = omega arith };
  cpu = omega arith;
}
