-- ===== src/Mgbx/Timer/Overflow.antt =====
-- The overflow of TIMA: the reload and the interrupt come one call later, and a write cancels them.
use aarch.Prelude.{ℕ, zero, suc, ◌+◌, ◌%◌, ◌^◌, ◌<◌, ◌≡◌, ◌≢◌, refl, arith, bit_and_mask, u16, true}
use aarch.Mgbx.State.{Mgbx, Timer}
use aarch.Mgbx.Interrupt.{request_interrupt}
use aarch.Mgbx.Timer.{timer_step, timer_reload, timer_write, tima_addr, tac_enabled, tac_select}
use aarch.Mgbx.Timer.Edge.{period, timer_tick_edge_lem}
use aarch.Mgbx.Timer.Period.{InRange}

-- The counter comes to a multiple of the period in the next call.
abbrev pub DueNext : Timer → Type 0
DueNext tm = (tm.counter + 1) % period (tac_select tm) ≡ 0

-- No period is 1, so two calls in a row are never both due.
not_due_twice :
    (s c : ℕ) → s < 4 → c < 2 ^ 16 → (c + 1) % period s ≡ 0 → (u16 (c + 1) + 1) % period s ≢ 0
not_due_twice zero c h small e = omega arith
not_due_twice (suc zero) c h small e = omega arith
not_due_twice (suc (suc zero)) c h small e = omega arith
not_due_twice (suc (suc (suc zero))) c h small e = omega arith
not_due_twice (suc (suc (suc (suc s)))) c h small e = absurd (omega arith)

abbrev pub overflowed : Timer → Timer
overflowed tm = record tm { counter = u16 (tm.counter + 1); tima = 0; tima_reload = 1 }

pub timer_step_overflow :
    (gb : Mgbx) (t : ℕ)
    → tac_enabled gb.timer ≡ true
    → InRange gb.timer
    → gb.timer.tima_reload ≡ 0
    → gb.timer.tima ≡ 255
    → DueNext gb.timer
    → timer_step gb t ≡ record gb { timer = overflowed gb.timer }
unfolding timer_step timer_reload
timer_step_overflow gb t on v idle full due = ground (
  arith,
  timer_tick_edge_lem (record (gb.timer) { counter = u16 (gb.timer.counter + 1) }) gb.timer.counter
      on v.counter,
)

timer_step_reload :
    (gb : Mgbx) (t : ℕ)
    → tac_enabled gb.timer ≡ true
    → gb.timer.counter < 2 ^ 16
    → gb.timer.tima_reload ≡ 1
    → (gb.timer.counter + 1) % period (tac_select gb.timer) ≢ 0
    → let tm = gb.timer in
      timer_step gb t
      ≡ request_interrupt
          (record gb {
            timer = record tm { counter = u16 (tm.counter + 1); tima = tm.tma; tima_reload = 0 };
          })
          2
unfolding timer_step timer_reload request_interrupt
timer_step_reload gb t on small pending not_due = ground (
  arith,
  timer_tick_edge_lem
      (record (gb.timer) {
        counter = u16 (gb.timer.counter + 1);
        tima = gb.timer.tma;
        tima_reload = 0;
      })
      gb.timer.counter on small,
)

step_idle :
    (gb : Mgbx) (t : ℕ)
    → tac_enabled gb.timer ≡ true
    → gb.timer.counter < 2 ^ 16
    → gb.timer.tima_reload ≡ 0
    → (gb.timer.counter + 1) % period (tac_select gb.timer) ≢ 0
    → let tm = gb.timer in
      timer_step gb t ≡ record gb { timer = record tm { counter = u16 (tm.counter + 1) } }
unfolding timer_step timer_reload
step_idle gb t on small idle not_due = ground (
  arith,
  timer_tick_edge_lem (record (gb.timer) { counter = u16 (gb.timer.counter + 1) }) gb.timer.counter
      on small,
)

-- Two calls over an overflow, with the timer on and in range, no reload pending, TIMA at 255 and
-- the selected bit about to fall: after the first TIMA is 0 and no interrupt is requested; after
-- the second TIMA is TMA and the timer interrupt is requested.
pub timer_overflow_lem :
    (gb : Mgbx) (t t' : ℕ)
    → tac_enabled gb.timer ≡ true
    → InRange gb.timer
    → gb.timer.tima_reload ≡ 0
    → gb.timer.tima ≡ 255
    → DueNext gb.timer
    → let tm = gb.timer in
      (timer_step gb t ≡ record gb { timer = overflowed tm })
      × (timer_step (timer_step gb t) t'
          ≡ request_interrupt
              (record gb {
                timer = record tm {
                  counter = u16 (tm.counter + 2);
                  tima = tm.tma;
                  tima_reload = 0;
                };
              })
              2)
timer_overflow_lem gb t t' on v idle full due =
    let first = timer_step_overflow gb t on v idle full due in
    let select : tac_select gb.timer < 4 = omega (arith, bit_and_mask 2 gb.timer.tac) in
    let mid : Mgbx = record gb { timer = overflowed gb.timer } in
    let second =
      timer_step_reload mid t' on (omega arith) refl
        (not_due_twice (tac_select gb.timer) gb.timer.counter select v.counter due) in
    (first, rw (first, second) (ground arith))

-- Under the same conditions, a write to TIMA between the two calls cancels the reload and the
-- interrupt: the second call leaves the interrupt flags as they were, and TIMA keeps what was
-- written.
pub timer_write_cancels :
    (gb : Mgbx) (t t' v : ℕ)
    → tac_enabled gb.timer ≡ true
    → InRange gb.timer
    → gb.timer.tima_reload ≡ 0
    → gb.timer.tima ≡ 255
    → DueNext gb.timer
    → let mid = timer_step gb t in
      let tm = gb.timer in
      timer_step (record mid { timer = timer_write mid.timer tima_addr v }) t' ≡ record gb {
        timer = record tm { counter = u16 (tm.counter + 2); tima = v; tima_reload = 0 };
      }
timer_write_cancels gb t t' v on h idle full due =
    let first = timer_step_overflow gb t on h idle full due in
    let select : tac_select gb.timer < 4 = omega (arith, bit_and_mask 2 gb.timer.tac) in
    let late = not_due_twice (tac_select gb.timer) gb.timer.counter select h.counter due in
    let mid : Timer = record (gb.timer) {
      counter = u16 (gb.timer.counter + 1);
      tima = v;
      tima_reload = 0;
    } in
    let written : timer_write (overflowed gb.timer) tima_addr v ≡ mid =
      unfold timer_write in refl in
    rw (first, written) (ground (arith, step_idle (record gb { timer = mid }) t' on))
