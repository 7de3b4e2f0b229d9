-- ===== src/Mgbx/Apu.antt =====
-- src/mgbx/apu.c: the units of the channels, which the frame sequencer clocks, and the triggers.
pub mod Registers
pub mod Units
pub mod Step
mod Tests
use aarch.Prelude.{
  ℕ, ◌+◌, ◌-◌, ◌*◌, ◌^◌, bit_and, u8, u16, u32, ◌<<<◌, ◌>>>◌, nonzero, ◌==◌, ltb, of_bool,
  if◌then◌else◌, ◌&&◌, ◌||◌, not, Bool, zeroed,
}
use aarch.Mgbx.State.{Apu, Square, Wave, Noise}

-- What memset leaves.
abbrev pub zero_square : Square
zero_square = record {
  duty = 0;
  duty_pos = 0;
  freq_timer = 0;
  freq = 0;
  len_counter = 0;
  len_enable = 0;
  env_volume = 0;
  env_period = 0;
  env_timer = 0;
  env_direction = 0;
  volume = 0;
  dac_enable = 0;
  sweep_period = 0;
  sweep_timer = 0;
  sweep_shift = 0;
  sweep_negate = 0;
  sweep_enabled = 0;
  active = 0;
}

abbrev pub zero_wave : Wave
zero_wave = record {
  dac_enable = 0;
  volume_shift = 0;
  freq_timer = 0;
  freq = 0;
  len_counter = 0;
  len_enable = 0;
  pos = 0;
  sample = 0;
  active = 0;
}

abbrev pub zero_noise : Noise
zero_noise = record {
  lfsr = 0;
  width_mode = 0;
  divisor_code = 0;
  shift_clock = 0;
  freq_timer = 0;
  len_counter = 0;
  len_enable = 0;
  env_volume = 0;
  env_period = 0;
  env_timer = 0;
  env_direction = 0;
  volume = 0;
  dac_enable = 0;
  active = 0;
}

unfoldable pub apu_reset : Apu → Apu
apu_reset apu = record {
  enabled = 1;
  nr50 = 0x77;
  nr51 = 0xf3;
  sq0 = zero_square;
  sq1 = zero_square;
  wave = zero_wave;
  noise = record zero_noise { lfsr = 0x7fff };
  wave_ram = zeroed;
  frame_seq_timer = 0;
  frame_seq_step = 0;
  sample_acc = 0;
  out = apu.out;
  out_cap = apu.out_cap;
  out_pos = 0;
}

-- One length counter: the counter, and whether the channel stays active.
abbrev pub len_next : ℕ → ℕ → ℕ → ℕ × ℕ
len_next enable counter active =
    if nonzero enable && ltb 0 counter
    then (counter - 1, if counter - 1 == 0 then 0 else active)
    else (counter, active)

unfoldable pub square_len_tick : Square → Square
square_len_tick s =
    let (counter, active) = len_next s.len_enable s.len_counter s.active in
    record s { len_counter = counter; active = active }

unfoldable pub chan_len_tick : Apu → Apu
chan_len_tick apu =
    let w = apu.wave in
    let n = apu.noise in
    let (w_counter, w_active) = len_next w.len_enable w.len_counter w.active in
    let (n_counter, n_active) = len_next n.len_enable n.len_counter n.active in
    record apu {
      sq0 = square_len_tick apu.sq0;
      sq1 = square_len_tick apu.sq1;
      wave = record w { len_counter = w_counter; active = w_active };
      noise = record n { len_counter = n_counter; active = n_active };
    }

-- One step of a volume.
abbrev pub volume_next : ℕ → ℕ → ℕ
volume_next direction volume =
    if nonzero direction && ltb volume 15
    then volume + 1
    else if not (nonzero direction) && ltb 0 volume
    then volume - 1
    else volume

unfoldable pub square_envelope_tick : Square → Square
square_envelope_tick s =
    let timer = if ltb 0 s.env_timer then s.env_timer - 1 else s.env_timer in
    if s.active == 0 || s.env_period == 0
    then s
    else if timer == 0
    then record s { env_timer = s.env_period; volume = volume_next s.env_direction s.volume }
    else record s { env_timer = timer }

unfoldable pub noise_envelope_tick : Noise → Noise
noise_envelope_tick n =
    let timer = if ltb 0 n.env_timer then n.env_timer - 1 else n.env_timer in
    if n.active == 0 || n.env_period == 0
    then n
    else if timer == 0
    then record n { env_timer = n.env_period; volume = volume_next n.env_direction n.volume }
    else record n { env_timer = timer }

unfoldable pub envelope_tick : Apu → Apu
envelope_tick apu = record apu {
  sq0 = square_envelope_tick apu.sq0;
  sq1 = square_envelope_tick apu.sq1;
  noise = noise_envelope_tick apu.noise;
}

unfoldable pub sweep_calc : Square → ℕ
sweep_calc s =
    let delta = u16 (s.freq >>> s.sweep_shift) in
    if nonzero s.sweep_negate then u16 (s.freq + 2 ^ 16 - delta) else u16 (s.freq + delta)

-- The body of the enabled sweep.
unfoldable pub sweep_apply : Square → Square
sweep_apply s =
    let nf = sweep_calc s in
    let s' : Square = record s { freq = nf } in
    if ltb 2047 nf
    then record s { active = 0 }
    else if nonzero s.sweep_shift
    then (if ltb 2047 (sweep_calc s') then record s' { active = 0 } else s')
    else s

unfoldable pub square_sweep_tick : Square → Square
square_sweep_tick s =
    let timer = if ltb 0 s.sweep_timer then s.sweep_timer - 1 else s.sweep_timer in
    let s' : Square = record s { sweep_timer = s.sweep_period } in
    if s.sweep_period == 0
    then s
    else if nonzero timer
    then record s { sweep_timer = timer }
    else if nonzero s.sweep_enabled && nonzero s.sweep_period
    then sweep_apply s'
    else s'

unfoldable pub sweep_tick : Apu → Apu
sweep_tick apu = record apu { sq0 = square_sweep_tick apu.sq0 }

-- `chan_trigger_square`, what both channels do.
unfoldable pub trigger_square : Square → Square
trigger_square s = record s {
  active = s.dac_enable;
  duty_pos = 0;
  freq_timer = u32 (u32 (2048 + 2 ^ 32 - s.freq) * 4);
  len_counter = if s.len_counter == 0 then 64 else s.len_counter;
  volume = s.env_volume;
  env_timer = if nonzero s.env_period then s.env_period else 8;
}

-- `chan_trigger_square` for `i == 0`, after the common part.
unfoldable pub trigger_sweep : Square → Square
trigger_sweep s =
    let s' : Square = record s {
      sweep_timer = if nonzero s.sweep_period then s.sweep_period else 8;
      sweep_enabled = of_bool (nonzero s.sweep_period || nonzero s.sweep_shift);
    } in
    if nonzero s.sweep_shift && ltb 2047 (sweep_calc s') then record s' { active = 0 } else s'

unfoldable pub chan_trigger_wave : Wave → Wave
chan_trigger_wave w = record w {
  active = w.dac_enable;
  freq_timer = u32 (u32 (2048 + 2 ^ 32 - w.freq) * 2);
  pos = 0;
  len_counter = if w.len_counter == 0 then 256 else w.len_counter;
}

-- `noise_divisor`, the table 8, 16, 32, ..., 112.
abbrev pub noise_divisor : ℕ → ℕ
noise_divisor code = if code == 0 then 8 else code * 16

unfoldable pub chan_trigger_noise : Noise → Noise
chan_trigger_noise n = record n {
  active = n.dac_enable;
  lfsr = 0x7fff;
  freq_timer = u32 (noise_divisor (bit_and n.divisor_code 7) <<< n.shift_clock);
  len_counter = if n.len_counter == 0 then 64 else n.len_counter;
  volume = n.env_volume;
  env_timer = if nonzero n.env_period then n.env_period else 8;
}
