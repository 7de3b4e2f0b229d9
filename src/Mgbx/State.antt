-- ===== src/Mgbx/State.antt =====
-- The state of src/mgbx/mgbx.h: one record for each struct. A `uint8_t`, `uint16_t`, `uint32_t` or
-- `size_t` is the number it holds; an array is the function of its elements; a pointer that may be
-- NULL is an option. `fb` and `out` are pointers into the machine that only the PPU and the APU
-- follow, so they stand in those records.
use aarch.Prelude.{ℕ, Option, Bytes}

pub record Cart : Type 0 where
  pub rom : Option Bytes
  pub rom_size : ℕ
  pub rom_banks : ℕ
  pub ram : Option Bytes
  pub ram_size : ℕ
  pub type : ℕ
  pub ram_enabled : ℕ
  pub bank1 : ℕ
  pub bank2 : ℕ
  pub mode : ℕ
  pub rom_bank : ℕ
  pub rtc_halt : ℕ
  pub rtc_latch_state : ℕ
  pub rtc_latched_valid : ℕ
  pub rtc : Bytes
  pub rtc_latched : Bytes
  pub rtc_divider : ℕ
  pub mbc2_ram : Bytes

pub record Ppu : Type 0 where
  pub vram : Bytes
  pub oam : Bytes
  pub lcdc : ℕ
  pub stat : ℕ
  pub scy : ℕ
  pub scx : ℕ
  pub ly : ℕ
  pub lyc : ℕ
  pub bgp : ℕ
  pub obp0 : ℕ
  pub obp1 : ℕ
  pub wy : ℕ
  pub wx : ℕ
  pub dot : ℕ
  pub win_line : ℕ
  pub fb : Bytes
  pub line_pixels : Bytes
  pub sprite_drawn : Bytes

pub record Timer : Type 0 where
  pub counter : ℕ
  pub tima : ℕ
  pub tma : ℕ
  pub tac : ℕ
  pub tima_reload : ℕ

pub record Joypad : Type 0 where
  pub select : ℕ
  pub p1 : ℕ
  pub buttons : ℕ

pub record Square : Type 0 where
  pub duty : ℕ
  pub duty_pos : ℕ
  pub freq_timer : ℕ
  pub freq : ℕ
  pub len_counter : ℕ
  pub len_enable : ℕ
  pub env_volume : ℕ
  pub env_period : ℕ
  pub env_timer : ℕ
  pub env_direction : ℕ
  pub volume : ℕ
  pub dac_enable : ℕ
  pub sweep_period : ℕ
  pub sweep_timer : ℕ
  pub sweep_shift : ℕ
  pub sweep_negate : ℕ
  pub sweep_enabled : ℕ
  pub active : ℕ

pub record Wave : Type 0 where
  pub dac_enable : ℕ
  pub volume_shift : ℕ
  pub freq_timer : ℕ
  pub freq : ℕ
  pub len_counter : ℕ
  pub len_enable : ℕ
  pub pos : ℕ
  pub sample : ℕ
  pub active : ℕ

pub record Noise : Type 0 where
  pub lfsr : ℕ
  pub width_mode : ℕ
  pub divisor_code : ℕ
  pub shift_clock : ℕ
  pub freq_timer : ℕ
  pub len_counter : ℕ
  pub len_enable : ℕ
  pub env_volume : ℕ
  pub env_period : ℕ
  pub env_timer : ℕ
  pub env_direction : ℕ
  pub volume : ℕ
  pub dac_enable : ℕ
  pub active : ℕ

-- `sq[2]` is the two fields `sq0` and `sq1`.
pub record Apu : Type 0 where
  pub enabled : ℕ
  pub nr50 : ℕ
  pub nr51 : ℕ
  pub sq0 : Square
  pub sq1 : Square
  pub wave : Wave
  pub noise : Noise
  pub wave_ram : Bytes
  pub frame_seq_timer : ℕ
  pub frame_seq_step : ℕ
  pub sample_acc : ℕ
  pub out : Option Bytes
  pub out_cap : ℕ
  pub out_pos : ℕ

pub record Mem : Type 0 where
  pub wram : Bytes
  pub hram : Bytes
  pub ie : ℕ
  pub if_reg : ℕ
  pub sb : ℕ
  pub sc : ℕ
  pub oam_dma_page : ℕ
  pub dma_active : ℕ
  pub dma_value : ℕ
  pub dma_index : ℕ

pub record Cpu : Type 0 where
  pub a : ℕ
  pub f : ℕ
  pub b : ℕ
  pub c : ℕ
  pub d : ℕ
  pub e : ℕ
  pub h : ℕ
  pub l : ℕ
  pub sp : ℕ
  pub pc : ℕ
  pub ime : ℕ
  pub ime_pending : ℕ
  pub halted : ℕ
  pub stopped : ℕ
  pub halt_bug : ℕ

pub record Mgbx : Type 0 where
  pub cpu : Cpu
  pub mem : Mem
  pub cart : Cart
  pub ppu : Ppu
  pub timer : Timer
  pub joypad : Joypad
  pub apu : Apu
  pub total_cycles : ℕ
