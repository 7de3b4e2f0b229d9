-- ===== src/Mgbax/Timers/Tests.antt =====
-- Steps of four timers: the first runs, the second and the third are in cascade.
use aarch.Prelude.{◌==◌, if◌then◌else◌, ◌≡◌, refl, arith}
use aarch.Mgbax.Timers.{
  Gba, timers_step, timer_overflow, channel_step, tick_loop, timer_tick, accumulated, counted,
  reloaded, interrupted, cascade, gba_request_irq, prescale_div,
}
use aarch.Mgbax.Timers.Run.{Ran}
use aarch.Mgbax.Timers.Step.{timers_step-Ran}
use aarch.Mgbax.Timers.Cascade.{overflowed, timer_overflow-counter}

abbrev chain : Gba
chain = record {
  timers = record {
    reload = λ _. 0xfffe;
    counter = λ _. 0xffff;
    ctrl = λ ch. if ch == 0 then 0x81 else if ch == 3 then 0 else 0xc4;
    prescaler = λ _. 60;
    tick_div = λ _. 0;
    ovf_bits = 0;
  };
  if_reg = 0;
}

-- 60 + 200 cycles are four ticks of 64, over the top and twice through the reload's cycle.
timers_step-Ran_example : Ran chain (timers_step chain 200) 0 4 4
unfolding prescale_div
timers_step-Ran_example =
    timers_step-Ran chain 0 200 (omega arith) (refl, refl, omega arith, omega arith)

timers_step_counter : (timers_step chain 200).timers.counter 0 ≡ 0xffff
unfolding timers_step channel_step tick_loop timer_tick timer_overflow accumulated counted reloaded
    interrupted cascade gba_request_irq prescale_div
timers_step_counter = refl

timer_overflow-counter_example : (timer_overflow chain 0).timers.counter 2 ≡ overflowed chain 0 2
timer_overflow-counter_example = timer_overflow-counter chain 0 2

-- The second channel overflows, and the third, in cascade, stays.
overflow_stops :
    ((timer_overflow chain 0).timers.counter 1 ≡ 0xfffe)
    × ((timer_overflow chain 0).timers.counter 2 ≡ 0xffff)
overflow_stops = (timer_overflow-counter chain 0 1, timer_overflow-counter chain 0 2)
