-- ===== src/Mgbx/Saves/Sound.antt =====
-- src/mgbx/mgbx.c, `mgbx_serialize` and `mgbx_deserialize`: the fields of the sound. `env_volume` is
-- neither written nor read.
use aarch.Prelude.{List, [], ◌∷◌}
use aarch.Mgbx.State.{Square, Wave, Noise, Apu}
use aarch.Common.Util.RoundTrip.{Field, byte, half, word}
use aarch.Common.Util.Reader.{sr_u8, sr_u16, sr_u32}
use aarch.Common.Util.Reading.{Read, give, ◌>>=◌}

unfoldable pub square_fields : Square → List Field
square_fields s =
    byte s.duty
    ∷ byte s.duty_pos
    ∷ word s.freq_timer
    ∷ half s.freq
    ∷ byte s.len_counter
    ∷ byte s.len_enable
    ∷ byte s.env_period
    ∷ byte s.env_timer
    ∷ byte s.env_direction
    ∷ byte s.volume
    ∷ byte s.dac_enable
    ∷ byte s.sweep_period
    ∷ byte s.sweep_timer
    ∷ byte s.sweep_shift
    ∷ byte s.sweep_negate
    ∷ byte s.sweep_enabled
    ∷ byte s.active
    ∷ []

unfoldable pub read_square : Square → Read Square
read_square old = do
  duty ← sr_u8
  duty_pos ← sr_u8
  freq_timer ← sr_u32
  freq ← sr_u16
  len_counter ← sr_u8
  len_enable ← sr_u8
  env_period ← sr_u8
  env_timer ← sr_u8
  env_direction ← sr_u8
  volume ← sr_u8
  dac_enable ← sr_u8
  sweep_period ← sr_u8
  sweep_timer ← sr_u8
  sweep_shift ← sr_u8
  sweep_negate ← sr_u8
  sweep_enabled ← sr_u8
  active ← sr_u8
  give (record old {
    duty = duty;
    duty_pos = duty_pos;
    freq_timer = freq_timer;
    freq = freq;
    len_counter = len_counter;
    len_enable = len_enable;
    env_period = env_period;
    env_timer = env_timer;
    env_direction = env_direction;
    volume = volume;
    dac_enable = dac_enable;
    sweep_period = sweep_period;
    sweep_timer = sweep_timer;
    sweep_shift = sweep_shift;
    sweep_negate = sweep_negate;
    sweep_enabled = sweep_enabled;
    active = active;
  })

unfoldable pub wave_fields : Wave → List Field
wave_fields w =
    byte w.dac_enable
    ∷ byte w.volume_shift
    ∷ word w.freq_timer
    ∷ half w.freq
    ∷ byte w.len_counter
    ∷ byte w.len_enable
    ∷ byte w.pos
    ∷ byte w.sample
    ∷ byte w.active
    ∷ []

unfoldable pub read_wave : Wave → Read Wave
read_wave old = do
  dac_enable ← sr_u8
  volume_shift ← sr_u8
  freq_timer ← sr_u32
  freq ← sr_u16
  len_counter ← sr_u8
  len_enable ← sr_u8
  pos ← sr_u8
  sample ← sr_u8
  active ← sr_u8
  give (record old {
    dac_enable = dac_enable;
    volume_shift = volume_shift;
    freq_timer = freq_timer;
    freq = freq;
    len_counter = len_counter;
    len_enable = len_enable;
    pos = pos;
    sample = sample;
    active = active;
  })

unfoldable pub noise_fields : Noise → List Field
noise_fields n =
    half n.lfsr
    ∷ byte n.width_mode
    ∷ byte n.divisor_code
    ∷ byte n.shift_clock
    ∷ word n.freq_timer
    ∷ byte n.len_counter
    ∷ byte n.len_enable
    ∷ byte n.env_period
    ∷ byte n.env_timer
    ∷ byte n.env_direction
    ∷ byte n.volume
    ∷ byte n.dac_enable
    ∷ byte n.active
    ∷ []

unfoldable pub read_noise : Noise → Read Noise
read_noise old = do
  lfsr ← sr_u16
  width_mode ← sr_u8
  divisor_code ← sr_u8
  shift_clock ← sr_u8
  freq_timer ← sr_u32
  len_counter ← sr_u8
  len_enable ← sr_u8
  env_period ← sr_u8
  env_timer ← sr_u8
  env_direction ← sr_u8
  volume ← sr_u8
  dac_enable ← sr_u8
  active ← sr_u8
  give (record old {
    lfsr = lfsr;
    width_mode = width_mode;
    divisor_code = divisor_code;
    shift_clock = shift_clock;
    freq_timer = freq_timer;
    len_counter = len_counter;
    len_enable = len_enable;
    env_period = env_period;
    env_timer = env_timer;
    env_direction = env_direction;
    volume = volume;
    dac_enable = dac_enable;
    active = active;
  })

unfoldable pub mixer_fields : Apu → List Field
mixer_fields apu = byte apu.enabled ∷ byte apu.nr50 ∷ byte apu.nr51 ∷ []

unfoldable pub read_mixer : Apu → Read Apu
read_mixer old = do
  enabled ← sr_u8
  nr50 ← sr_u8
  nr51 ← sr_u8
  give (record old { enabled = enabled; nr50 = nr50; nr51 = nr51 })

unfoldable pub sequencer_fields : Apu → List Field
sequencer_fields apu =
    half apu.frame_seq_timer ∷ byte apu.frame_seq_step ∷ word apu.sample_acc ∷ word apu.out_pos ∷ []

unfoldable pub read_sequencer : Apu → Read Apu
read_sequencer old = do
  frame_seq_timer ← sr_u16
  frame_seq_step ← sr_u8
  sample_acc ← sr_u32
  out_pos ← sr_u32
  give (record old {
    frame_seq_timer = frame_seq_timer;
    frame_seq_step = frame_seq_step;
    sample_acc = sample_acc;
    out_pos = out_pos;
  })
