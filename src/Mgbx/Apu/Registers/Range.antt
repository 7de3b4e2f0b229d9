-- ===== src/Mgbx/Apu/Registers/Range.antt =====
-- The ranges that the fields of the channels keep under the frame sequencer and the registers.
use aarch.Prelude.{
  ℕ, ◌*◌, ◌/◌, ◌%◌, ◌^◌, ◌≤◌, ◌<◌, arith, bit_and, bit_or, bit_and_mask, bit_and_high,
  bit_or_fields, bit_or-lt_pow, u16, ◌<<<◌, nonzero, ◌==◌, if◌then◌else◌, Bool, true, false, not,
  ◌&&◌,
}
use aarch.Mgbx.State.{Apu, Square, Wave, Noise}
use aarch.Mgbx.Apu.{
  apu_reset, chan_len_tick, square_len_tick, envelope_tick, square_envelope_tick,
  noise_envelope_tick, sweep_tick, square_sweep_tick, sweep_apply, trigger_square, trigger_sweep,
  chan_trigger_wave, chan_trigger_noise,
}
use aarch.Mgbx.Apu.Registers.{
  apu_write, in_wave_ram, write_register, write_power, write_sweep, write_duty, write_envelope,
  write_square_high, write_wave_dac, write_wave_high, write_noise_envelope, write_polynomial,
  write_noise_control,
}

abbrev pub SquareInRange : Square → Type 0
SquareInRange s =
    (s.freq ≤ 2047)
    × (s.duty ≤ 3)
    × (s.len_counter ≤ 64)
    × (s.env_volume ≤ 15)
    × (s.volume ≤ 15)
    × (s.env_period ≤ 7)
    × (s.env_timer ≤ 8)
    × (s.sweep_period ≤ 7)
    × (s.sweep_timer ≤ 8)
    × (s.sweep_shift ≤ 7)

abbrev pub WaveInRange : Wave → Type 0
WaveInRange w = (w.freq ≤ 2047) × (w.len_counter ≤ 256) × (w.volume_shift ≤ 3)

abbrev pub NoiseInRange : Noise → Type 0
NoiseInRange n =
    (n.len_counter ≤ 64)
    × (n.env_volume ≤ 15)
    × (n.volume ≤ 15)
    × (n.env_period ≤ 7)
    × (n.env_timer ≤ 8)
    × (n.shift_clock ≤ 15)
    × (n.divisor_code ≤ 7)

-- A frequency of 11 bits keeps the period of a channel above 0.
pub record InRange (apu : Apu) : Type 0 where
  pub sq0 : SquareInRange apu.sq0
  pub sq1 : SquareInRange apu.sq1
  pub wave : WaveInRange apu.wave
  pub noise : NoiseInRange apu.noise

square_len_tick-InRange : (s : Square) → SquareInRange s → SquareInRange (square_len_tick s)
unfolding square_len_tick
square_len_tick-InRange s r = ground arith

square_envelope_tick-InRange :
    (s : Square) → SquareInRange s → SquareInRange (square_envelope_tick s)
unfolding square_envelope_tick
square_envelope_tick-InRange s r = ground arith

square_sweep_tick-InRange : (s : Square) → SquareInRange s → SquareInRange (square_sweep_tick s)
unfolding square_sweep_tick sweep_apply
square_sweep_tick-InRange s r = ground arith

trigger-InRange :
    (s : Square)
    → SquareInRange s
    → SquareInRange (trigger_square s) × SquareInRange (trigger_sweep s)
unfolding trigger_square trigger_sweep
trigger-InRange s r = ground arith

write_square-InRange :
    (s : Square) (v : ℕ)
    → v < 256
    → SquareInRange s
    → SquareInRange (write_sweep s v)
      × SquareInRange (write_duty s v)
      × SquareInRange (write_envelope s v)
unfolding write_sweep write_duty write_envelope
write_square-InRange s v small r = ground (
  arith,
  bit_and_mask 3 v,
  bit_and_mask 3 (v / 16),
  bit_and_mask 2 (v / 64),
  bit_and_mask 4 (v / 16),
  bit_and_mask 6 v,
)

freq_low-le : (freq v : ℕ) → v < 256 → u16 (bit_or (bit_and freq 0x0700) v) ≤ 2047
freq_low-le freq v small = ground (
  arith,
  bit_and_high 8 freq 7,
  bit_and_mask 3 (freq / 2 ^ 8),
  bit_or_fields 8 (freq / 2 ^ 8 % 8) v small,
)

freq_high-le : (freq v : ℕ) → freq ≤ 2047 → u16 (bit_or freq (bit_and v 7 <<< 8)) ≤ 2047
freq_high-le freq v small = ground (arith, bit_and_mask 3 v, bit_or-lt_pow 11 freq (v % 8 * 2 ^ 8))

write_square_high-InRange :
    (s : Square) (v : ℕ) → SquareInRange s → SquareInRange (write_square_high s v)
unfolding write_square_high
write_square_high-InRange s v r = ground (arith, freq_high-le s.freq v)

wave-InRange :
    (w : Wave) (v : ℕ)
    → WaveInRange w
    → WaveInRange (write_wave_dac w v) × WaveInRange (write_wave_high w v)
unfolding write_wave_dac write_wave_high chan_trigger_wave
wave-InRange w v r = ground (arith, freq_high-le w.freq v)

noise-InRange :
    (n : Noise) (v : ℕ)
    → NoiseInRange n
    → NoiseInRange (noise_envelope_tick n)
      × NoiseInRange (write_noise_envelope n v)
      × NoiseInRange (write_polynomial n v)
      × NoiseInRange (write_noise_control n v)
unfolding noise_envelope_tick write_noise_envelope write_polynomial write_noise_control
    chan_trigger_noise
noise-InRange n v r = ground (arith, bit_and_mask 3 v, bit_and_mask 4 (v / 16))

chan_len_tick-InRange : (apu : Apu) → InRange apu → InRange (chan_len_tick apu)
unfolding chan_len_tick
chan_len_tick-InRange apu r = record {
  sq0 = square_len_tick-InRange apu.sq0 r.sq0;
  sq1 = square_len_tick-InRange apu.sq1 r.sq1;
  wave = ground (arith, r.wave);
  noise = ground (arith, r.noise);
}

-- A choice keeps the range when both sides do.
either : (b : Bool) (x y : Apu) → InRange x → InRange y → InRange (if b then x else y)
either true x y h k = h
either false x y h k = k

square_either :
    (b : Bool) (x y : Square)
    → SquareInRange x
    → SquareInRange y
    → SquareInRange (if b then x else y)
square_either true x y h k = h
square_either false x y h k = k

write_power-InRange : (apu : Apu) (v : ℕ) → InRange apu → InRange (write_power apu v)
unfolding write_power
write_power-InRange apu v r =
    either (nonzero (bit_and v 0x80)) _ _
      (either (not (nonzero apu.enabled)) _ _
        (record { sq0 = r.sq0; sq1 = r.sq1; wave = r.wave; noise = r.noise }) r)
      (record { sq0 = omega arith; sq1 = omega arith; wave = omega arith; noise = omega arith })

write_register-InRange :
    (apu : Apu) (addr v : ℕ) → v < 256 → InRange apu → InRange (write_register apu addr v)
unfolding write_register
write_register-InRange apu addr v small r =
    let put0 : (s : Square) → SquareInRange s → InRange (record apu { sq0 = s }) =
      λ s h. record { sq0 = h; sq1 = r.sq1; wave = r.wave; noise = r.noise } in
    let put1 : (s : Square) → SquareInRange s → InRange (record apu { sq1 = s }) =
      λ s h. record { sq0 = r.sq0; sq1 = h; wave = r.wave; noise = r.noise } in
    let put_wave : (w : Wave) → WaveInRange w → InRange (record apu { wave = w }) =
      λ w h. record { sq0 = r.sq0; sq1 = r.sq1; wave = h; noise = r.noise } in
    let put_noise : (n : Noise) → NoiseInRange n → InRange (record apu { noise = n }) =
      λ n h. record { sq0 = r.sq0; sq1 = r.sq1; wave = r.wave; noise = h } in
    let same0 = write_square-InRange apu.sq0 v small r.sq0 in
    let same1 = write_square-InRange apu.sq1 v small r.sq1 in
    let high0 = write_square_high-InRange apu.sq0 v r.sq0 in
    let high1 = write_square_high-InRange apu.sq1 v r.sq1 in
    let waves = wave-InRange apu.wave v r.wave in
    let noises = noise-InRange apu.noise v r.noise in
    either (addr == 0xff10) _ _ (put0 _ same0.0) (
      either (addr == 0xff11) _ _ (put0 _ same0.1) (
        either (addr == 0xff12) _ _ (put0 _ same0.2) (
          either (addr == 0xff13) _ _
            (put0 _ (ground (arith, r.sq0, freq_low-le apu.sq0.freq v small)))
            (either (addr == 0xff14) _ _
              (put0 _ (
                square_either (nonzero (bit_and v 0x80)) _ _
                  (trigger-InRange _ (trigger-InRange _ high0).0).1 high0))
              (either (addr == 0xff16) _ _ (put1 _ same1.1) (
                either (addr == 0xff17) _ _ (put1 _ same1.2) (
                  either (addr == 0xff18) _ _
                    (put1 _ (ground (arith, r.sq1, freq_low-le apu.sq1.freq v small)))
                    (either (addr == 0xff19) _ _
                      (put1 _ (
                        square_either (nonzero (bit_and v 0x80)) _ _ (trigger-InRange _ high1).0
                          high1))
                      (either (addr == 0xff1a) _ _ (put_wave _ waves.0) (
                        either (addr == 0xff1b) _ _ (put_wave _ (ground (arith, r.wave))) (
                          either (addr == 0xff1c) _ _
                            (put_wave _ (ground (arith, r.wave, bit_and_mask 2 (v / 32))))
                            (either (addr == 0xff1d) _ _
                              (put_wave _
                                (ground (arith, r.wave, freq_low-le apu.wave.freq v small)))
                              (either (addr == 0xff1e) _ _ (put_wave _ waves.1) (
                                either (addr == 0xff20) _ _
                                  (put_noise _ (ground (arith, r.noise, bit_and_mask 6 v)))
                                  (either (addr == 0xff21) _ _ (put_noise _ noises.1) (
                                    either (addr == 0xff22) _ _ (put_noise _ noises.2) (
                                      either (addr == 0xff23) _ _ (put_noise _ noises.3) (
                                        either (addr == 0xff24) _ _
                                          (record {
                                            sq0 = r.sq0;
                                            sq1 = r.sq1;
                                            wave = r.wave;
                                            noise = r.noise;
                                          })
                                          (either (addr == 0xff25) _ _
                                            (record {
                                              sq0 = r.sq0;
                                              sq1 = r.sq1;
                                              wave = r.wave;
                                              noise = r.noise;
                                            })
                                            (either (addr == 0xff26) _ _
                                              (write_power-InRange apu v r)
                                              (either (in_wave_ram addr) _ _
                                                (record {
                                                  sq0 = r.sq0;
                                                  sq1 = r.sq1;
                                                  wave = r.wave;
                                                  noise = r.noise;
                                                })
                                                r)))))))))))))))))))))

-- The channels are in range after a reset, and stay so under the length counters, the envelopes,
-- the sweep, and a write of a byte to any address.
pub apu-InRange :
    (apu : Apu) (addr v : ℕ)
    → v < 256
    → InRange apu
    → InRange (apu_reset apu)
      × InRange (chan_len_tick apu)
      × InRange (envelope_tick apu)
      × InRange (sweep_tick apu)
      × InRange (apu_write apu addr v)
unfolding apu_reset envelope_tick sweep_tick apu_write
apu-InRange apu addr v small r = (
  record { sq0 = omega arith; sq1 = omega arith; wave = omega arith; noise = omega arith },
  chan_len_tick-InRange apu r,
  record {
    sq0 = square_envelope_tick-InRange apu.sq0 r.sq0;
    sq1 = square_envelope_tick-InRange apu.sq1 r.sq1;
    wave = r.wave;
    noise = (noise-InRange apu.noise v r.noise).0;
  },
  record {
    sq0 = square_sweep_tick-InRange apu.sq0 r.sq0;
    sq1 = r.sq1;
    wave = r.wave;
    noise = r.noise;
  },
  either (apu.enabled == 0 && (not (addr == 0xff26) && not (in_wave_ram addr))) _ _ r
      (write_register-InRange apu addr v small r),
)
