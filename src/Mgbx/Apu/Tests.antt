-- ===== src/Mgbx/Apu/Tests.antt =====
-- Runs of the APU's registers and units.
use aarch.Prelude.{◌≤◌, ◌≡◌, ◌≢◌, refl, arith}
use aarch.Mgbx.State.{Apu, Square}
use aarch.Mgbx.Fixtures.{idle_apu, idle_square}
use aarch.Mgbx.Apu.{
  apu_reset, chan_len_tick, envelope_tick, sweep_tick, square_sweep_tick, sweep_apply, sweep_calc,
}
use aarch.Mgbx.Apu.Units.{len_ticks, note_length}
use aarch.Mgbx.Apu.Step.{square_step, square_loop, sample_l, sample_r, mix_l}
use aarch.Mgbx.Apu.Step.Timers.{Counted, square_step_lem}
use aarch.Mgbx.Apu.Step.Mix.{sample-le}
use aarch.Mgbx.Apu.Registers.{apu_write}
use aarch.Mgbx.Apu.Registers.ReadBack.{ReadsBack, apu_read-apu_write}
use aarch.Mgbx.Apu.Registers.Range.{InRange, apu-InRange}

abbrev sounding : Apu
sounding = record idle_apu { enabled = 1; sq1 = record idle_square { dac_enable = 1 } }

apu_read-apu_write_example :
    ReadsBack sounding 0xff10 0x9a 0x89
    × ReadsBack sounding 0xff11 0x9a 0xbf
    × ReadsBack sounding 0xff12 0x9a 0x9a
    × ReadsBack sounding 0xff14 0x9a 0xbf
    × ReadsBack sounding 0xff16 0x9a 0xbf
    × ReadsBack sounding 0xff17 0x9a 0x9a
    × ReadsBack sounding 0xff19 0x9a 0xbf
    × ReadsBack sounding 0xff1a 0x9a 0xff
    × ReadsBack sounding 0xff1c 0x9a 0x9f
    × ReadsBack sounding 0xff1e 0x9a 0xbf
    × ReadsBack sounding 0xff21 0x9a 0x9a
    × ReadsBack sounding 0xff22 0x9a 0x9a
    × ReadsBack sounding 0xff23 0x9a 0xbf
    × ReadsBack sounding 0xff24 0x9a 0x9a
    × ReadsBack sounding 0xff25 0x9a 0x9a
apu_read-apu_write_example = apu_read-apu_write sounding 0x9a (omega arith) (omega arith)

apu-InRange_example :
    InRange (apu_reset sounding)
    × InRange (chan_len_tick sounding)
    × InRange (envelope_tick sounding)
    × InRange (sweep_tick sounding)
    × InRange (apu_write sounding 0xff19 0xff)
apu-InRange_example =
    apu-InRange sounding 0xff19 0xff (omega arith)
      (record { sq0 = omega arith; sq1 = omega arith; wave = omega arith; noise = omega arith })

note_length_before :
    (len_ticks 1 (apu_write (apu_write sounding 0xff16 0xbe) 0xff19 0xc0)).sq1.active ≡ 1
note_length_before = note_length sounding 0xbe 1 (omega arith)

abbrev sweeping : Square
sweeping = record idle_square {
  freq = 0x400;
  sweep_period = 3;
  sweep_timer = 1;
  sweep_shift = 2;
  sweep_enabled = 1;
  active = 1;
}

sweeping_stays : (square_sweep_tick sweeping).active ≢ 0
unfolding square_sweep_tick sweep_apply sweep_calc
sweeping_stays = omega arith

abbrev playing : Square
playing = record idle_square { freq = 0x7f0; freq_timer = 60; duty_pos = 7; active = 1 }

-- A period of 64 cycles: 60 + 140 cycles are three periods and 8 cycles.
square_step_example : Counted 64 (record playing { freq_timer = 200 }) (square_step playing 140)
square_step_example =
    square_step_lem playing 140 (omega arith) (omega arith) (omega arith) (omega arith)

square_step_run : square_step playing 140 ≡ record playing { freq_timer = 8; duty_pos = 2 }
unfolding square_step square_loop
square_step_run = refl

abbrev loud : Apu
loud = record idle_apu {
  enabled = 1;
  nr50 = 0x77;
  nr51 = 0xff;
  sq0 = record idle_square { active = 1; duty_pos = 7; volume = 15 };
  sq1 = record idle_square { active = 1; duty_pos = 7; volume = 15 };
  wave = record (idle_apu.wave) { active = 1; volume_shift = 1; sample = 15 };
  noise = record (idle_apu.noise) { active = 1; lfsr = 0; volume = 15 };
}

sample-le_example : (sample_l loud ≤ 32767) × (sample_r loud ≤ 32767)
sample-le_example = sample-le loud loud-InRange (omega arith)
  where
    loud-InRange : InRange loud
    loud-InRange = record {
      sq0 = omega arith;
      sq1 = omega arith;
      wave = omega arith;
      noise = omega arith;
    }

-- All four channels at full volume.
sample_l-loud : sample_l loud ≡ 32764
unfolding sample_l mix_l
sample_l-loud = refl
