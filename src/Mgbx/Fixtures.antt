-- ===== src/Mgbx/Fixtures.antt =====
-- Concrete machines for the tests.
use aarch.Prelude.{◌*◌, ◌%◌, ◌==◌, if◌then◌else◌, Bytes, zeroed, some}
use aarch.Mgbx.State.{Mgbx, Cart, Ppu, Timer, Joypad, Apu, Square, Wave, Noise, Mem, Cpu}

-- An MBC5 image of 16 banks with RAM, whose other bytes are the low bytes of their offsets.
abbrev pub image : Bytes
image i = if i == 0x147 then 0x1b else if i == 0x148 then 3 else if i == 0x149 then 3 else i % 256

abbrev pub mbc5_cart : Cart
mbc5_cart = record {
  rom = some image;
  rom_size = 16 * 0x4000;
  rom_banks = 16;
  ram = some zeroed;
  ram_size = 32768;
  type = 0x1b;
  ram_enabled = 1;
  bank1 = 1;
  bank2 = 2;
  mode = 0;
  rom_bank = 1;
  rtc_halt = 0;
  rtc_latch_state = 0;
  rtc_latched_valid = 0;
  rtc = zeroed;
  rtc_latched = zeroed;
  rtc_divider = 0;
  mbc2_ram = zeroed;
}

abbrev pub idle_square : Square
idle_square = record {
  duty = 0;
  duty_pos = 0;
  freq_timer = 0;
  freq = 0;
  len_counter = 0;
  len_enable = 0;
  env_volume = 0;
  env_period = 0;
  env_timer = 0;
  env_direction = 0;
  volume = 0;
  dac_enable = 0;
  sweep_period = 0;
  sweep_timer = 0;
  sweep_shift = 0;
  sweep_negate = 0;
  sweep_enabled = 0;
  active = 0;
}

abbrev pub idle_wave : Wave
idle_wave = record {
  dac_enable = 0;
  volume_shift = 0;
  freq_timer = 0;
  freq = 0;
  len_counter = 0;
  len_enable = 0;
  pos = 0;
  sample = 0;
  active = 0;
}

abbrev pub idle_noise : Noise
idle_noise = record {
  lfsr = 0x7fff;
  width_mode = 0;
  divisor_code = 0;
  shift_clock = 0;
  freq_timer = 0;
  len_counter = 0;
  len_enable = 0;
  env_volume = 0;
  env_period = 0;
  env_timer = 0;
  env_direction = 0;
  volume = 0;
  dac_enable = 0;
  active = 0;
}

abbrev pub idle_apu : Apu
idle_apu = record {
  enabled = 1;
  nr50 = 0x77;
  nr51 = 0xf3;
  sq0 = idle_square;
  sq1 = idle_square;
  wave = idle_wave;
  noise = idle_noise;
  wave_ram = zeroed;
  frame_seq_timer = 0;
  frame_seq_step = 0;
  sample_acc = 0;
  out = some zeroed;
  out_cap = 2048;
  out_pos = 0;
}

abbrev pub idle_ppu : Ppu
idle_ppu = record {
  vram = zeroed;
  oam = zeroed;
  lcdc = 0x91;
  stat = 0x85;
  scy = 0;
  scx = 0;
  ly = 0;
  lyc = 0;
  bgp = 0xfc;
  obp0 = 0xff;
  obp1 = 0xff;
  wy = 0;
  wx = 0;
  dot = 0;
  win_line = 0;
  fb = zeroed;
  line_pixels = zeroed;
  sprite_drawn = zeroed;
}

abbrev pub idle_mem : Mem
idle_mem = record {
  wram = zeroed;
  hram = zeroed;
  ie = 0x1f;
  if_reg = 0xe1;
  sb = 0;
  sc = 0;
  oam_dma_page = 0;
  dma_active = 0;
  dma_value = 0;
  dma_index = 0;
}

abbrev pub boot_cpu : Cpu
boot_cpu = record {
  a = 0x01;
  f = 0xb0;
  b = 0x00;
  c = 0x13;
  d = 0x00;
  e = 0xd8;
  h = 0x01;
  l = 0x4d;
  sp = 0xfffe;
  pc = 0x0100;
  ime = 0;
  ime_pending = 0;
  halted = 0;
  stopped = 0;
  halt_bug = 0;
}

-- A timer at 16384 Hz, one counter step before a tick.
abbrev pub ticking : Timer
ticking = record { counter = 63; tima = 255; tma = 7; tac = 7; tima_reload = 0 }

-- The direction keys are selected, and RIGHT and A are held.
abbrev pub held_right : Joypad
held_right = record { select = 0x20; p1 = 0; buttons = 0x11 }

abbrev pub machine : Mgbx
machine = record {
  cpu = boot_cpu;
  mem = idle_mem;
  cart = mbc5_cart;
  ppu = idle_ppu;
  timer = ticking;
  joypad = held_right;
  apu = idle_apu;
  total_cycles = 0;
}
