-- ===== src/Mgbx/Apu/Step/Timers.antt =====
-- The loops of the channel timers end, and count the periods that have passed.
use aarch.Prelude.{
  ℕ, zero, suc, ◌+◌, ◌-◌, ◌*◌, ◌%◌, ◌^◌, ◌≤◌, ◌<◌, ◌≡◌, ◌≢◌, arith, bit_and_mask, leb, Bool-cases,
  inl, inr, if◌then◌else◌,
}
use aarch.Mgbx.State.{Square}
use aarch.Mgbx.Apu.Step.{square_loop, square_step}

-- `s'` is `s` with `q` periods taken off its timer, which leaves less than one, and the duty
-- position as many steps further, modulo 8.
pub record Counted (period : ℕ) (s s' : Square) : Type 0 where
  pub q : ℕ
  pub timer : s.freq_timer ≡ q * period + s'.freq_timer
  pub rest : s'.freq_timer < period
  pub moved : s' ≡ record s { freq_timer = s'.freq_timer; duty_pos = (s.duty_pos + q) % 8 }

square_loop-suc :
    (fuel period : ℕ) (s : Square)
    → 1 ≤ period
    → square_loop (suc fuel) period s ≡ (
        if leb period s.freq_timer
        then square_loop fuel period
            (record s { freq_timer = s.freq_timer - period; duty_pos = (s.duty_pos + 1) % 8 })
        else s)
unfolding square_loop
square_loop-suc fuel period s some_period = ground (arith, bit_and_mask 3 (s.duty_pos + 1))

square_loop_lem :
    (fuel period : ℕ) (s : Square)
    → 1 ≤ period
    → s.freq_timer ≤ fuel
    → s.duty_pos < 8
    → Counted period s (square_loop fuel period s)
square_loop_lem zero period s some_period enough pos =
    unfold square_loop in
    record { q = 0; timer = ground arith; rest = omega arith; moved = ground arith }
square_loop_lem (suc fuel) period s some_period enough pos =
    rw (square_loop-suc fuel period s some_period) (elim (Bool-cases (leb period s.freq_timer)) [
      | inl due ↦
          let next : Square = record s {
            freq_timer = s.freq_timer - period;
            duty_pos = (s.duty_pos + 1) % 8;
          } in
          let later = square_loop_lem fuel period next some_period (ground arith) (omega arith) in
          rw due (record {
            q = suc (later.q);
            timer = ground (arith, later.timer);
            rest = later.rest;
            moved = ground (arith, later.moved);
          })
      | inr early ↦
          rw early
            (record { q = 0; timer = omega arith; rest = ground arith; moved = ground arith })
    ])

-- An active square channel with a frequency of 11 bits adds the cycles to its timer, takes off
-- whole periods of 4 * (2048 - freq) cycles until less than one is left, and advances its duty
-- position once for each, modulo 8; the sum of the cycles fits 32 bits. The fuel never ends the
-- loop early.
pub square_step_lem :
    (s : Square) (t_cycles : ℕ)
    → s.active ≢ 0
    → s.freq ≤ 2047
    → s.duty_pos < 8
    → s.freq_timer + t_cycles < 2 ^ 32
    → Counted
        ((2048 - s.freq) * 4)
        (record s { freq_timer = s.freq_timer + t_cycles })
        (square_step s t_cycles)
square_step_lem s t_cycles active small pos fits =
    let start : Square = record s { freq_timer = s.freq_timer + t_cycles } in
    let run : square_step s t_cycles ≡ square_loop start.freq_timer ((2048 - s.freq) * 4) start =
      unfold square_step in ground arith in
    rw run
      (square_loop_lem start.freq_timer ((2048 - s.freq) * 4) start (omega arith) (omega arith) pos)
