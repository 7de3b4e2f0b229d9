-- ===== src/Mgbx/Saves/SoundBack.antt =====
-- The fields of the sound are read back at their widths.
use aarch.Prelude.{ℕ, ap, List, [], ◌∷◌, u8, u16, u32}
use aarch.Mgbx.State.{Square, Wave, Noise, Apu}
use aarch.Common.Util.RoundTrip.{all_bytes}
use aarch.Common.Util.Reading.{Gives, fields_held, ◌>>=◌, give}
use aarch.Mgbx.Saves.Sound.{
  square_fields, read_square, wave_fields, read_wave, noise_fields, read_noise, mixer_fields,
  read_mixer, sequencer_fields, read_sequencer,
}

unfoldable pub kept_square : Square → Square → Square
kept_square s old = record old {
  duty = u8 s.duty;
  duty_pos = u8 s.duty_pos;
  freq_timer = u32 s.freq_timer;
  freq = u16 s.freq;
  len_counter = u8 s.len_counter;
  len_enable = u8 s.len_enable;
  env_period = u8 s.env_period;
  env_timer = u8 s.env_timer;
  env_direction = u8 s.env_direction;
  volume = u8 s.volume;
  dac_enable = u8 s.dac_enable;
  sweep_period = u8 s.sweep_period;
  sweep_timer = u8 s.sweep_timer;
  sweep_shift = u8 s.sweep_shift;
  sweep_negate = u8 s.sweep_negate;
  sweep_enabled = u8 s.sweep_enabled;
  active = u8 s.active;
}

assign_square : Square → List ℕ → Square
assign_square old
      (duty ∷ duty_pos ∷ freq_timer ∷ freq ∷ len_counter ∷ len_enable ∷ env_period ∷ env_timer
        ∷ env_direction ∷ volume ∷ dac_enable ∷ sweep_period ∷ sweep_timer ∷ sweep_shift
        ∷ sweep_negate ∷ sweep_enabled ∷ active ∷ []) =
    record old {
      duty = duty;
      duty_pos = duty_pos;
      freq_timer = freq_timer;
      freq = freq;
      len_counter = len_counter;
      len_enable = len_enable;
      env_period = env_period;
      env_timer = env_timer;
      env_direction = env_direction;
      volume = volume;
      dac_enable = dac_enable;
      sweep_period = sweep_period;
      sweep_timer = sweep_timer;
      sweep_shift = sweep_shift;
      sweep_negate = sweep_negate;
      sweep_enabled = sweep_enabled;
      active = active;
    }
assign_square old _ = old

pub read_square-Gives :
    (s old : Square) → Gives (read_square old) (all_bytes (square_fields s)) (kept_square s old)
unfolding square_fields read_square kept_square assign_square ◌>>=◌ give
read_square-Gives s old = record {
  run = λ r room held.
      ap (λ p. (assign_square old p.0, p.1)) (fields_held (square_fields s) r room held);
}

unfoldable pub kept_wave : Wave → Wave → Wave
kept_wave w old = record old {
  dac_enable = u8 w.dac_enable;
  volume_shift = u8 w.volume_shift;
  freq_timer = u32 w.freq_timer;
  freq = u16 w.freq;
  len_counter = u8 w.len_counter;
  len_enable = u8 w.len_enable;
  pos = u8 w.pos;
  sample = u8 w.sample;
  active = u8 w.active;
}

assign_wave : Wave → List ℕ → Wave
assign_wave old
      (dac_enable ∷ volume_shift ∷ freq_timer ∷ freq ∷ len_counter ∷ len_enable ∷ pos ∷ sample
        ∷ active ∷ []) =
    record old {
      dac_enable = dac_enable;
      volume_shift = volume_shift;
      freq_timer = freq_timer;
      freq = freq;
      len_counter = len_counter;
      len_enable = len_enable;
      pos = pos;
      sample = sample;
      active = active;
    }
assign_wave old _ = old

pub read_wave-Gives :
    (w old : Wave) → Gives (read_wave old) (all_bytes (wave_fields w)) (kept_wave w old)
unfolding wave_fields read_wave kept_wave assign_wave ◌>>=◌ give
read_wave-Gives w old = record {
  run =
      λ r room held. ap (λ p. (assign_wave old p.0, p.1)) (fields_held (wave_fields w) r room held);
}

unfoldable pub kept_noise : Noise → Noise → Noise
kept_noise n old = record old {
  lfsr = u16 n.lfsr;
  width_mode = u8 n.width_mode;
  divisor_code = u8 n.divisor_code;
  shift_clock = u8 n.shift_clock;
  freq_timer = u32 n.freq_timer;
  len_counter = u8 n.len_counter;
  len_enable = u8 n.len_enable;
  env_period = u8 n.env_period;
  env_timer = u8 n.env_timer;
  env_direction = u8 n.env_direction;
  volume = u8 n.volume;
  dac_enable = u8 n.dac_enable;
  active = u8 n.active;
}

assign_noise : Noise → List ℕ → Noise
assign_noise old
      (lfsr ∷ width_mode ∷ divisor_code ∷ shift_clock ∷ freq_timer ∷ len_counter ∷ len_enable
        ∷ env_period ∷ env_timer ∷ env_direction ∷ volume ∷ dac_enable ∷ active ∷ []) =
    record old {
      lfsr = lfsr;
      width_mode = width_mode;
      divisor_code = divisor_code;
      shift_clock = shift_clock;
      freq_timer = freq_timer;
      len_counter = len_counter;
      len_enable = len_enable;
      env_period = env_period;
      env_timer = env_timer;
      env_direction = env_direction;
      volume = volume;
      dac_enable = dac_enable;
      active = active;
    }
assign_noise old _ = old

pub read_noise-Gives :
    (n old : Noise) → Gives (read_noise old) (all_bytes (noise_fields n)) (kept_noise n old)
unfolding noise_fields read_noise kept_noise assign_noise ◌>>=◌ give
read_noise-Gives n old = record {
  run = λ r room held.
      ap (λ p. (assign_noise old p.0, p.1)) (fields_held (noise_fields n) r room held);
}

unfoldable pub kept_mixer : Apu → Apu → Apu
kept_mixer apu old = record old { enabled = u8 apu.enabled; nr50 = u8 apu.nr50; nr51 = u8 apu.nr51 }

assign_mixer : Apu → List ℕ → Apu
assign_mixer old (enabled ∷ nr50 ∷ nr51 ∷ []) = record old {
  enabled = enabled;
  nr50 = nr50;
  nr51 = nr51;
}
assign_mixer old _ = old

pub read_mixer-Gives :
    (apu old : Apu) → Gives (read_mixer old) (all_bytes (mixer_fields apu)) (kept_mixer apu old)
unfolding mixer_fields read_mixer kept_mixer assign_mixer ◌>>=◌ give
read_mixer-Gives apu old = record {
  run = λ r room held.
      ap (λ p. (assign_mixer old p.0, p.1)) (fields_held (mixer_fields apu) r room held);
}

unfoldable pub kept_sequencer : Apu → Apu → Apu
kept_sequencer apu old = record old {
  frame_seq_timer = u16 apu.frame_seq_timer;
  frame_seq_step = u8 apu.frame_seq_step;
  sample_acc = u32 apu.sample_acc;
  out_pos = u32 apu.out_pos;
}

assign_sequencer : Apu → List ℕ → Apu
assign_sequencer old (frame_seq_timer ∷ frame_seq_step ∷ sample_acc ∷ out_pos ∷ []) = record old {
  frame_seq_timer = frame_seq_timer;
  frame_seq_step = frame_seq_step;
  sample_acc = sample_acc;
  out_pos = out_pos;
}
assign_sequencer old _ = old

pub read_sequencer-Gives :
    (apu old : Apu)
    → Gives (read_sequencer old) (all_bytes (sequencer_fields apu)) (kept_sequencer apu old)
unfolding sequencer_fields read_sequencer kept_sequencer assign_sequencer ◌>>=◌ give
read_sequencer-Gives apu old = record {
  run = λ r room held.
      ap (λ p. (assign_sequencer old p.0, p.1)) (fields_held (sequencer_fields apu) r room held);
}
