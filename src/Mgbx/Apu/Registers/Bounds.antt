-- ===== src/Mgbx/Apu/Registers/Bounds.antt =====
-- Every register of the APU reads a byte.
use aarch.Prelude.{ℕ, ◌-◌, ◌<◌, arith, bit_or-lt_pow, u8, IsBytes}
use aarch.Mgbx.State.{Apu}
use aarch.Mgbx.Apu.Registers.{apu_read, read_power, read_length, flag_if}

flag_if-lt : (test : ℕ) → flag_if test 0x40 < 256
flag_if-lt test = ground arith

read_length-lt : (enable : ℕ) → read_length enable < 256
read_length-lt enable = ground (arith, bit_or-lt_pow 8 (u8 (flag_if enable 0x40)) 0xbf)

read_power-lt : (apu : Apu) → read_power apu < 256
unfolding read_power
read_power-lt apu = ground arith

pub apu_read-lt :
    (apu : Apu) (addr : ℕ)
    → IsBytes apu.wave_ram
    → apu.nr50 < 256
    → apu.nr51 < 256
    → apu_read apu addr < 256
unfolding apu_read
apu_read-lt apu addr h k l = ground (
  arith,
  h (addr - 0xff30),
  read_length-lt apu.sq0.len_enable,
  read_length-lt apu.sq1.len_enable,
  read_length-lt apu.wave.len_enable,
  read_length-lt apu.noise.len_enable,
  bit_or-lt_pow 8 (u8 (flag_if apu.wave.dac_enable 0x80)) 0x7f,
  read_power-lt apu,
)
