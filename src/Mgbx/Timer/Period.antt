-- ===== src/Mgbx/Timer/Period.antt =====
-- The timer over a sequence of `gb_timer_step` calls.
use aarch.Prelude.{
  ℕ, ◌+◌, ◌%◌, ◌^◌, ◌<◌, ◌≡◌, arith, bit_and_mask, u16, if◌then◌else◌, ◌==◌, true, List, [], ◌∷◌,
  length,
}
use aarch.Mgbx.State.{Mgbx, Timer}
use aarch.Mgbx.Timer.{timer_step, timer_reload, tac_enabled, tac_select}
use aarch.Mgbx.Timer.Edge.{period, ticks, ticks-suc, timer_tick_edge_lem}

-- The calls of the frame loop, each with the T-cycles it passes.
abbrev pub timer_run : Mgbx → List ℕ → Mgbx
timer_run gb [] = gb
timer_run gb (t ∷ ts) = timer_run (timer_step gb t) ts

-- Every field is a value that its bits can hold.
pub record InRange (tm : Timer) : Type 0 where
  pub counter : tm.counter < 2 ^ 16
  pub tima : tm.tima < 256
  pub tma : tm.tma < 256
  pub tac : tm.tac < 8
  pub tima_reload : tm.tima_reload < 2

-- A step with no reload pending.
step_lem :
    (gb : Mgbx) (t : ℕ)
    → let tm = gb.timer in
      tac_enabled tm ≡ true
      → tm.counter < 2 ^ 16
      → tm.tima_reload ≡ 0
      → tm.tima + (if (tm.counter + 1) % period (tac_select tm) == 0 then 1 else 0) < 256
      → timer_step gb t ≡ record gb {
        timer = record tm {
          counter = u16 (tm.counter + 1);
          tima = tm.tima + (if (tm.counter + 1) % period (tac_select tm) == 0 then 1 else 0);
        };
      }
unfolding timer_step timer_reload
step_lem gb t on small idle room = ground (
  arith,
  timer_tick_edge_lem (record (gb.timer) { counter = u16 (gb.timer.counter + 1) }) gb.timer.counter
      on small,
)

-- With the timer on and no reload pending, `n` calls advance the counter by `n` and TIMA by the
-- multiples of its period that the counter passes, as long as TIMA does not overflow; nothing else
-- of the machine changes, and the T-cycles passed to the calls do not matter.
pub timer_run_lem :
    (ts : List ℕ) (gb : Mgbx)
    → let tm = gb.timer in
      let n = ticks (tac_select tm) tm.counter (length ts) in
      tac_enabled tm ≡ true
      → InRange tm
      → tm.tima_reload ≡ 0
      → tm.tima + n < 256
      → timer_run gb ts ≡ record gb {
        timer = record tm { counter = u16 (tm.counter + length ts); tima = tm.tima + n };
      }
timer_run_lem [] gb on v idle room = ground arith
timer_run_lem (t ∷ ts) gb on v idle room =
    let tm = gb.timer in
    let now : ℕ = if (tm.counter + 1) % period (tac_select tm) == 0 then 1 else 0 in
    let tm' : Timer = record tm { counter = u16 (tm.counter + 1); tima = tm.tima + now } in
    let select : tac_select tm < 4 = omega (arith, bit_and_mask 2 tm.tac) in
    let split = ticks-suc (tac_select tm) tm.counter (length ts) select v.counter in
    let v' : InRange tm' = omega (arith, split) in
    let rest = timer_run_lem ts (record gb { timer = tm' }) on v' idle (omega (arith, split)) in
    rw (step_lem gb t on v.counter idle (omega (arith, split)), rest) (ground (arith, split))
