-- ===== src/Mgbx/Timer/Range.antt =====
-- Every field of the timer stays in the range of its bits.
use aarch.Prelude.{
  ℕ, ◌+◌, ◌<◌, ◌≡◌, arith, bit_and, zero-bit_and, bit_and_mask, u8, u16, nonzero, if◌then◌else◌,
  ◌&&◌,
}
use aarch.Mgbx.State.{Mgbx, Timer}
use aarch.Mgbx.Interrupt.{request_interrupt}
use aarch.Mgbx.Timer.{
  timer_step, timer_reload, timer_tick_edge, timer_write, timer_reset, timer_read, div_addr,
  tac_enabled, edge_mask,
}
use aarch.Mgbx.Timer.Period.{InRange}

timer_tick_edge-InRange :
    {tm : Timer} (old now : ℕ) → InRange tm → InRange (timer_tick_edge tm old now)
unfolding timer_tick_edge
timer_tick_edge-InRange old now v = ground arith

timer_reload-InRange : (gb : Mgbx) → InRange gb.timer → InRange (timer_reload gb).timer
unfolding timer_reload request_interrupt
timer_reload-InRange gb v = ground arith

pub timer_step-InRange : (gb : Mgbx) (t : ℕ) → InRange gb.timer → InRange (timer_step gb t).timer
unfolding timer_step
timer_step-InRange gb t v =
    let v' : InRange (timer_reload gb).timer = timer_reload-InRange gb v in
    let tm = (timer_reload gb).timer in
    let tm' : Timer = record tm { counter = u16 (tm.counter + 1) } in
    timer_tick_edge-InRange {tm = tm'} tm.counter (u16 (tm.counter + 1)) (omega arith)

pub timer_write-InRange :
    {tm : Timer} (addr v : ℕ) → v < 256 → InRange tm → InRange (timer_write tm addr v)
unfolding timer_write
timer_write-InRange {tm} addr v small h =
    ground (
      arith,
      bit_and_mask 3 v,
      timer_tick_edge-InRange {tm = record tm { counter = 0 }} tm.counter 0,
    )

-- The timer is in range after a reset, and stays so under every step and every register write of a
-- byte.
pub timer-InRange :
    (gb : Mgbx) (t addr v : ℕ)
    → v < 256
    → InRange gb.timer
    → InRange timer_reset × InRange (timer_step gb t).timer × InRange (timer_write gb.timer addr v)
unfolding timer_reset
timer-InRange gb t addr v small h = (
  omega (arith, bit_and_mask 3 0xf8),
  timer_step-InRange gb t h,
  timer_write-InRange addr v small h,
)

-- A write to DIV clears the counter, and counts TIMA up when the selected bit was set.
pub timer_write_div :
    (tm : Timer) (v : ℕ)
    → let on = tac_enabled tm && nonzero (bit_and tm.counter (edge_mask tm)) in
      ((timer_write tm div_addr v).counter ≡ 0)
      × ((timer_write tm div_addr v).tima ≡ (if on then u8 (tm.tima + 1) else tm.tima))
      × (timer_read (timer_write tm div_addr v) div_addr ≡ 0)
unfolding timer_write timer_tick_edge timer_read
timer_write_div tm v = (
  ground (arith, zero-bit_and (edge_mask tm)),
  ground (arith, zero-bit_and (edge_mask tm)),
  ground (arith, zero-bit_and (edge_mask tm)),
)
