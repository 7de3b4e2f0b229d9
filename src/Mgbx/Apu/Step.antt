-- ===== src/Mgbx/Apu/Step.antt =====
-- src/mgbx/apu.c: `gb_apu_step`, the frame sequencer, the channel timers and the mixer.
pub mod Timers
pub mod Mix
use aarch.Prelude.{
  ℕ, zero, suc, ◌+◌, ◌-◌, ◌*◌, ◌/◌, ◌^◌, bit_and, bit_or, bit_xor, u8, u16, u32, not8, ◌<<<◌, ◌>>>◌,
  nonzero, ◌==◌, ltb, leb, of_bool, if◌then◌else◌, ◌&&◌, ◌||◌, not, Bool, true, false, Bytes,
  Option, none, some, update,
}
use aarch.Mgbx.State.{Apu, Square, Wave, Noise}
use aarch.Mgbx.Apu.{chan_len_tick, envelope_tick, sweep_tick, noise_divisor}

-- The frame sequencer.
unfoldable pub frame_sequencer : Apu → ℕ → Apu
frame_sequencer apu t_cycles =
    let timer = u16 (apu.frame_seq_timer + t_cycles) in
    let step = apu.frame_seq_step in
    let apu' : Apu = record apu {
      frame_seq_timer = u16 (timer - 8192);
      frame_seq_step = u8 (bit_and (step + 1) 7);
    } in
    if leb 8192 timer
    then (if step == 0 || step == 4
        then chan_len_tick apu'
        else if step == 2 || step == 6
        then sweep_tick (chan_len_tick apu')
        else if step == 7
        then envelope_tick apu'
        else apu')
    else record apu { frame_seq_timer = timer }

-- The `while` of a square channel, with the number of rounds that it can make.
unfoldable pub square_loop : ℕ → ℕ → Square → Square
square_loop zero period s = s
square_loop (suc fuel) period s = elim (nonzero period && leb period s.freq_timer) [
  | true ↦
      square_loop fuel period (record s {
        freq_timer = s.freq_timer - period;
        duty_pos = u8 (bit_and (s.duty_pos + 1) 7);
      })
  | false ↦ s
]

abbrev pub square_period : Square → ℕ
square_period s = u32 (u32 (2048 + 2 ^ 32 - s.freq) * 4)

unfoldable pub square_step : Square → ℕ → Square
square_step s t_cycles =
    let timer = u32 (s.freq_timer + t_cycles) in
    if s.active == 0
    then s
    else square_loop timer (square_period s) (record s { freq_timer = timer })

-- One round of the wave channel: the next position and its half of a byte.
unfoldable pub wave_round : Bytes → ℕ → Wave → Wave
wave_round wave_ram period w =
    let pos = u8 (bit_and (w.pos + 1) 31) in
    let b = wave_ram (pos >>> 1) in
    record w {
      freq_timer = w.freq_timer - period;
      pos = pos;
      sample = if nonzero (bit_and pos 1) then u8 (bit_and b 0x0f) else u8 (b >>> 4);
    }

unfoldable pub wave_loop : Bytes → ℕ → ℕ → Wave → Wave
wave_loop wave_ram zero period w = w
wave_loop wave_ram (suc fuel) period w = elim (nonzero period && leb period w.freq_timer) [
  | true ↦ wave_loop wave_ram fuel period (wave_round wave_ram period w)
  | false ↦ w
]

unfoldable pub wave_step : Bytes → Wave → ℕ → Wave
wave_step wave_ram w t_cycles =
    let timer = u32 (w.freq_timer + t_cycles) in
    if w.active == 0
    then w
    else wave_loop wave_ram timer (u32 (u32 (2048 + 2 ^ 32 - w.freq) * 2))
        (record w { freq_timer = timer })

-- The shift register. `(uint16_t)~0x40u` is 0xffbf.
unfoldable pub next_lfsr : ℕ → ℕ → ℕ
next_lfsr width_mode lfsr =
    let feedback = u16 (bit_and (bit_xor lfsr (lfsr >>> 1)) 1 <<< 14) in
    let shifted = u16 (bit_or (lfsr >>> 1) feedback) in
    if nonzero width_mode then u16 (bit_or (bit_and shifted 0xffbf) (feedback >>> 8)) else shifted

unfoldable pub noise_loop : ℕ → ℕ → Noise → Noise
noise_loop zero period n = n
noise_loop (suc fuel) period n = elim (nonzero period && leb period n.freq_timer) [
  | true ↦
      noise_loop fuel period
        (record n { freq_timer = n.freq_timer - period; lfsr = next_lfsr n.width_mode n.lfsr })
  | false ↦ n
]

unfoldable pub noise_step : Noise → ℕ → Noise
noise_step n t_cycles =
    let timer = u32 (n.freq_timer + t_cycles) in
    if n.active == 0
    then n
    else noise_loop timer (u32 (noise_divisor (bit_and n.divisor_code 7) <<< n.shift_clock))
        (record n { freq_timer = timer })

-- `duty_table[duty][pos]`
abbrev pub duty_table : ℕ → ℕ → Bool
duty_table duty pos =
    if duty == 0
    then pos == 7
    else if duty == 1
    then pos == 0 || pos == 7
    else if duty == 2
    then pos == 0 || leb 5 pos
    else leb 1 pos && leb pos 6

-- `outv`, one function per channel.
abbrev pub square_out : Square → ℕ
square_out s = if nonzero s.active && duty_table (bit_and s.duty 3) s.duty_pos then s.volume else 0

abbrev pub wave_out : Wave → ℕ
wave_out w =
    if nonzero w.active
    then (if w.volume_shift == 0
        then 0
        else if w.volume_shift == 1
        then w.sample
        else if w.volume_shift == 2
        then w.sample >>> 1
        else w.sample >>> 2)
    else 0

abbrev pub noise_out : Noise → ℕ
noise_out n = if nonzero n.active && not (nonzero (bit_and n.lfsr 1)) then n.volume else 0

-- `if (nr51 & (1u << k)) sum += x;`
abbrev channel_if : Apu → ℕ → ℕ → ℕ
channel_if apu k x = if nonzero (bit_and apu.nr51 (2 ^ k)) then x else 0

-- The sum of the channels whose bits NR51 has: from bit 4 on for the left side, from bit 0 on for
-- the right side.
unfoldable pub mix_l : Apu → ℕ
mix_l apu =
    if nonzero apu.enabled
    then channel_if apu 4 (square_out apu.sq0)
      + channel_if apu 5 (square_out apu.sq1)
      + channel_if apu 6 (wave_out apu.wave)
      + channel_if apu 7 (noise_out apu.noise)
    else 0

unfoldable pub mix_r : Apu → ℕ
mix_r apu =
    if nonzero apu.enabled
    then channel_if apu 0 (square_out apu.sq0)
      + channel_if apu 1 (square_out apu.sq1)
      + channel_if apu 2 (wave_out apu.wave)
      + channel_if apu 3 (noise_out apu.noise)
    else 0

unfoldable pub sample_l : Apu → ℕ
sample_l apu = mix_l apu * (bit_and (apu.nr50 >>> 4) 7 + 1) * 6826 / 100

unfoldable pub sample_r : Apu → ℕ
sample_r apu = mix_r apu * (bit_and apu.nr50 7 + 1) * 6826 / 100

-- One output sample, if there is room.
unfoldable pub put_sample : Apu → Apu
put_sample apu = elim apu.out [
  | none ↦ apu
  | some out ↦
      if leb (apu.out_pos + 2) apu.out_cap
      then record apu {
        out = some (
            update (update out apu.out_pos (u16 (sample_l apu))) (apu.out_pos + 1)
              (u16 (sample_r apu)));
        out_pos = apu.out_pos + 2;
      }
      else apu
]

-- The `while` of the output, with the number of rounds that it can make.
unfoldable pub sample_loop : ℕ → Apu → Apu
sample_loop zero apu = apu
sample_loop (suc fuel) apu = elim (leb 128 apu.sample_acc) [
  | true ↦ sample_loop fuel (put_sample (record apu { sample_acc = apu.sample_acc - 128 }))
  | false ↦ apu
]

-- `gb_apu_step`
unfoldable pub apu_step : Apu → ℕ → Apu
apu_step apu t_cycles =
    let apu' = frame_sequencer apu t_cycles in
    let acc = u32 (apu'.sample_acc + t_cycles) in
    sample_loop (acc / 128) (record apu' {
      sq0 = square_step apu'.sq0 t_cycles;
      sq1 = square_step apu'.sq1 t_cycles;
      wave = wave_step apu'.wave_ram apu'.wave t_cycles;
      noise = noise_step apu'.noise t_cycles;
      sample_acc = acc;
    })
