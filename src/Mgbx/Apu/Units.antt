-- ===== src/Mgbx/Apu/Units.antt =====
-- How long a note lasts, and what the sweep guards.
use aarch.Prelude.{
  ℕ, zero, suc, ◌-◌, ◌%◌, ◌≤◌, ◌≡◌, ◌≢◌, ◌∙◌, arith, bit_and_mask, nonzero, ltb, leb, if◌then◌else◌,
  ◌&&◌, true,
}
use aarch.Mgbx.State.{Apu, Square}
use aarch.Mgbx.Apu.{
  chan_len_tick, square_len_tick, square_sweep_tick, sweep_apply, sweep_calc, trigger_square,
}
use aarch.Mgbx.Apu.Registers.{apu_write, write_register, write_duty, write_square_high}

-- `n` clocks of the length counters.
abbrev pub len_ticks : ℕ → Apu → Apu
len_ticks zero apu = apu
len_ticks (suc n) apu = len_ticks n (chan_len_tick apu)

len_ticks_lem :
    (n : ℕ) (apu : Apu)
    → nonzero apu.sq1.len_enable ≡ true
    → let s = apu.sq1 in
      (len_ticks n apu).sq1.active
      ≡ (if ltb 0 s.len_counter && leb s.len_counter n then 0 else s.active)
unfolding chan_len_tick square_len_tick
len_ticks_lem zero apu on = ground arith
len_ticks_lem (suc n) apu on = len_ticks_lem n (chan_len_tick apu) (ground arith) ∙ ground arith

-- On an enabled APU, writing a length to NR21 and triggering channel 2 by NR24 with its length
-- counter on gives a note of 64 less the length clocks: the channel is as its DAC says before that,
-- and off from then on.
pub note_length :
    (apu : Apu) (v n : ℕ)
    → apu.enabled ≢ 0
    → let playing = apu_write (apu_write apu 0xff16 v) 0xff19 0xc0 in
      (len_ticks n playing).sq1.active ≡ (if leb (64 - v % 64) n then 0 else apu.sq1.dac_enable)
unfolding apu_write write_register write_duty write_square_high trigger_square
note_length apu v n on =
    len_ticks_lem n (apu_write (apu_write apu 0xff16 v) 0xff19 0xc0) (ground arith)
    ∙ ground (arith, bit_and_mask 6 v)

-- A clock of the sweep that recalculates the frequency, with a shift, leaves the channel on only
-- when the frequency is one of 11 bits and the next recalculation would be as well.
pub sweep_guard :
    (s : Square)
    → s.freq ≤ 2047
    → s.sweep_period ≢ 0
    → s.sweep_timer ≤ 1
    → s.sweep_enabled ≢ 0
    → s.sweep_shift ≢ 0
    → (square_sweep_tick s).active ≢ 0
    → ((square_sweep_tick s).freq ≡ sweep_calc s)
      × ((square_sweep_tick s).freq ≤ 2047)
      × (sweep_calc (square_sweep_tick s) ≤ 2047)
unfolding square_sweep_tick sweep_apply sweep_calc
sweep_guard s small period due enabled shift active = ground arith
