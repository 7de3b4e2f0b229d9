-- ===== src/Mgbx/Timer/Tests.antt =====
-- The timer at concrete states.
use aarch.Prelude.{◌≡◌, refl, arith, [], ◌∷◌}
use aarch.Mgbx.State.{Mgbx}
use aarch.Mgbx.Interrupt.{request_interrupt}
use aarch.Mgbx.Fixtures.{machine, ticking}
use aarch.Mgbx.Timer.{timer_step, timer_write, timer_read, timer_reset, tima_addr, div_addr}
use aarch.Mgbx.Timer.Period.{timer_run, timer_run_lem, InRange}
use aarch.Mgbx.Timer.Overflow.{timer_overflow_lem, timer_write_cancels, overflowed}

abbrev low : Mgbx
low = record machine { timer = record ticking { tima = 3 } }

ticking-InRange : InRange ticking
ticking-InRange = omega arith

-- The first of three calls ticks, whatever cycles are passed.
timer_run_example :
    timer_run low (4 ∷ 24 ∷ 12 ∷ [])
    ≡ record low { timer = record ticking { counter = 66; tima = 4 } }
timer_run_example = timer_run_lem (4 ∷ 24 ∷ 12 ∷ []) low refl (omega arith) refl (omega arith)

timer_overflow_example :
    (timer_step machine 4 ≡ record machine { timer = overflowed ticking })
    × (timer_step (timer_step machine 4) 4
        ≡ request_interrupt
            (record machine { timer = record ticking { counter = 65; tima = 7; tima_reload = 0 } })
            2)
timer_overflow_example = timer_overflow_lem machine 4 4 refl ticking-InRange refl refl refl

timer_write_cancels_example :
    let mid = timer_step machine 4 in
    timer_step (record mid { timer = timer_write mid.timer tima_addr 9 }) 4
    ≡ record machine { timer = record ticking { counter = 65; tima = 9; tima_reload = 0 } }
timer_write_cancels_example = timer_write_cancels machine 4 4 9 refl ticking-InRange refl refl refl

-- After a reset TAC is 0, so the timer is off.
timer_reset_off : (timer_reset.tac ≡ 0) × (timer_read timer_reset div_addr ≡ 0xab)
unfolding timer_reset timer_read
timer_reset_off = (refl, refl)
