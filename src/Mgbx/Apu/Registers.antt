-- ===== src/Mgbx/Apu/Registers.antt =====
-- src/mgbx/apu.c: `gb_apu_read` and `gb_apu_write`.
pub mod Power
pub mod ReadBack
pub mod Range
pub mod Bounds
use aarch.Prelude.{
  ℕ, ◌+◌, ◌-◌, bit_and, bit_or, u8, u16, ◌<<<◌, ◌>>>◌, nonzero, ◌==◌, leb, of_bool, if◌then◌else◌,
  ◌&&◌, not, Bool, Bytes, update,
}
use aarch.Mgbx.State.{Apu, Square, Wave, Noise}
use aarch.Mgbx.Apu.{
  zero_square, zero_wave, zero_noise, trigger_square, trigger_sweep, chan_trigger_wave,
  chan_trigger_noise,
}

abbrev pub in_wave_ram : ℕ → Bool
in_wave_ram addr = leb 0xff30 addr && leb addr 0xff3f

-- `test ? flag : 0`
abbrev flag_if : ℕ → ℕ → ℕ
flag_if test flag = if nonzero test then flag else 0

-- The value of an NRx2 register.
abbrev read_envelope : ℕ → ℕ → ℕ → ℕ
read_envelope volume direction period =
    u8 (bit_or (bit_or (volume <<< 4) (flag_if direction 8)) period)

-- The value of an NRx4 register.
abbrev read_length : ℕ → ℕ
read_length enable = bit_or (u8 (flag_if enable 0x40)) 0xbf

unfoldable pub read_power : Apu → ℕ
read_power apu =
    let v = u8 (bit_or 0x70 (flag_if apu.enabled 0x80)) in
    let v1 = if nonzero apu.sq0.active then bit_or v 0x01 else v in
    let v2 = if nonzero apu.sq1.active then bit_or v1 0x02 else v1 in
    let v3 = if nonzero apu.wave.active then bit_or v2 0x04 else v2 in
    if nonzero apu.noise.active then bit_or v3 0x08 else v3

-- The guard keeps the index inside the 16 bytes of the wave RAM.
unfoldable pub apu_read : Apu → ℕ → ℕ
apu_read apu addr =
    let sq0 = apu.sq0 in
    let sq1 = apu.sq1 in
    let n = apu.noise in
    if addr == 0xff10
    then u8 (bit_or (bit_or sq0.sweep_period (flag_if sq0.sweep_negate 8)) 0x80)
    else if addr == 0xff11
    then u8 (bit_or (sq0.duty <<< 6) 0x3f)
    else if addr == 0xff12
    then read_envelope sq0.env_volume sq0.env_direction sq0.env_period
    else if addr == 0xff14
    then read_length sq0.len_enable
    else if addr == 0xff16
    then u8 (bit_or (sq1.duty <<< 6) 0x3f)
    else if addr == 0xff17
    then read_envelope sq1.env_volume sq1.env_direction sq1.env_period
    else if addr == 0xff19
    then read_length sq1.len_enable
    else if addr == 0xff1a
    then bit_or (u8 (flag_if apu.wave.dac_enable 0x80)) 0x7f
    else if addr == 0xff1c
    then u8 (bit_or (apu.wave.volume_shift <<< 5) 0x9f)
    else if addr == 0xff1e
    then read_length apu.wave.len_enable
    else if addr == 0xff21
    then read_envelope n.env_volume n.env_direction n.env_period
    else if addr == 0xff22
    then u8 (bit_or (bit_or (n.shift_clock <<< 4) (flag_if n.width_mode 8)) n.divisor_code)
    else if addr == 0xff23
    then read_length n.len_enable
    else if addr == 0xff24
    then apu.nr50
    else if addr == 0xff25
    then apu.nr51
    else if addr == 0xff26
    then read_power apu
    else if in_wave_ram addr
    then apu.wave_ram (addr - 0xff30)
    else 0xff

-- The writes to the registers of one square channel.
unfoldable pub write_sweep : Square → ℕ → Square
write_sweep s v = record s {
  sweep_shift = bit_and v 7;
  sweep_negate = of_bool (nonzero (bit_and v 8));
  sweep_period = bit_and (v >>> 4) 7;
}

unfoldable pub write_duty : Square → ℕ → Square
write_duty s v = record s { duty = bit_and (v >>> 6) 3; len_counter = u8 (64 - bit_and v 0x3f) }

unfoldable pub write_envelope : Square → ℕ → Square
write_envelope s v =
    let dac = nonzero (bit_and v 0xf8) in
    record s {
      env_volume = bit_and (v >>> 4) 0x0f;
      env_direction = of_bool (nonzero (bit_and v 8));
      env_period = bit_and v 7;
      dac_enable = of_bool dac;
      active = if dac then s.active else 0;
    }

-- `(freq & 0x0700) | v` and `freq | ((v & 7) << 8)`.
abbrev freq_low : ℕ → ℕ → ℕ
freq_low freq v = u16 (bit_or (bit_and freq 0x0700) v)

abbrev freq_high : ℕ → ℕ → ℕ
freq_high freq v = u16 (bit_or freq (bit_and v 7 <<< 8))

unfoldable pub write_square_high : Square → ℕ → Square
write_square_high s v = record s {
  freq = freq_high s.freq v;
  len_enable = of_bool (nonzero (bit_and v 0x40));
}

unfoldable pub write_wave_dac : Wave → ℕ → Wave
write_wave_dac w v =
    let dac = nonzero (bit_and v 0x80) in
    record w { dac_enable = of_bool dac; active = if dac then w.active else 0 }

unfoldable pub write_wave_high : Wave → ℕ → Wave
write_wave_high w v =
    let w' : Wave = record w {
      freq = freq_high w.freq v;
      len_enable = of_bool (nonzero (bit_and v 0x40));
    } in
    if nonzero (bit_and v 0x80) then chan_trigger_wave w' else w'

unfoldable pub write_noise_envelope : Noise → ℕ → Noise
write_noise_envelope n v =
    let dac = nonzero (bit_and v 0xf8) in
    record n {
      env_volume = bit_and (v >>> 4) 0x0f;
      env_direction = of_bool (nonzero (bit_and v 8));
      env_period = bit_and v 7;
      dac_enable = of_bool dac;
      active = if dac then n.active else 0;
    }

unfoldable pub write_polynomial : Noise → ℕ → Noise
write_polynomial n v = record n {
  shift_clock = bit_and (v >>> 4) 0x0f;
  width_mode = of_bool (nonzero (bit_and v 8));
  divisor_code = bit_and v 7;
}

unfoldable pub write_noise_control : Noise → ℕ → Noise
write_noise_control n v =
    let n' : Noise = record n { len_enable = of_bool (nonzero (bit_and v 0x40)) } in
    if nonzero (bit_and v 0x80) then chan_trigger_noise n' else n'

unfoldable pub write_power : Apu → ℕ → Apu
write_power apu v =
    if nonzero (bit_and v 0x80)
    then (if not (nonzero apu.enabled)
        then record apu { enabled = 1; frame_seq_timer = 0; frame_seq_step = 0 }
        else apu)
    else record apu {
      enabled = 0;
      sq0 = zero_square;
      sq1 = zero_square;
      wave = zero_wave;
      noise = zero_noise;
    }

-- The `switch`, past the power gate.
unfoldable pub write_register : Apu → ℕ → ℕ → Apu
write_register apu addr v =
    let sq0 = apu.sq0 in
    let sq1 = apu.sq1 in
    let w = apu.wave in
    let n = apu.noise in
    let trigger = nonzero (bit_and v 0x80) in
    let high0 = write_square_high sq0 v in
    let high1 = write_square_high sq1 v in
    if addr == 0xff10
    then record apu { sq0 = write_sweep sq0 v }
    else if addr == 0xff11
    then record apu { sq0 = write_duty sq0 v }
    else if addr == 0xff12
    then record apu { sq0 = write_envelope sq0 v }
    else if addr == 0xff13
    then record apu { sq0 = record sq0 { freq = freq_low sq0.freq v } }
    else if addr == 0xff14
    then record apu { sq0 = if trigger then trigger_sweep (trigger_square high0) else high0 }
    else if addr == 0xff16
    then record apu { sq1 = write_duty sq1 v }
    else if addr == 0xff17
    then record apu { sq1 = write_envelope sq1 v }
    else if addr == 0xff18
    then record apu { sq1 = record sq1 { freq = freq_low sq1.freq v } }
    else if addr == 0xff19
    then record apu { sq1 = if trigger then trigger_square high1 else high1 }
    else if addr == 0xff1a
    then record apu { wave = write_wave_dac w v }
    else if addr == 0xff1b
    then record apu { wave = record w { len_counter = 256 - v } }
    else if addr == 0xff1c
    then record apu { wave = record w { volume_shift = bit_and (v >>> 5) 3 } }
    else if addr == 0xff1d
    then record apu { wave = record w { freq = freq_low w.freq v } }
    else if addr == 0xff1e
    then record apu { wave = write_wave_high w v }
    else if addr == 0xff20
    then record apu { noise = record n { len_counter = u8 (64 - bit_and v 0x3f) } }
    else if addr == 0xff21
    then record apu { noise = write_noise_envelope n v }
    else if addr == 0xff22
    then record apu { noise = write_polynomial n v }
    else if addr == 0xff23
    then record apu { noise = write_noise_control n v }
    else if addr == 0xff24
    then record apu { nr50 = v }
    else if addr == 0xff25
    then record apu { nr51 = v }
    else if addr == 0xff26
    then write_power apu v
    else if in_wave_ram addr
    then record apu { wave_ram = update apu.wave_ram (addr - 0xff30) v }
    else apu

-- `gb_apu_write`
unfoldable pub apu_write : Apu → ℕ → ℕ → Apu
apu_write apu addr v =
    if apu.enabled == 0 && (not (addr == 0xff26) && not (in_wave_ram addr))
    then apu
    else write_register apu addr v
