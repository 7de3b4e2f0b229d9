-- ===== src/Mgbx/Timer.antt =====
-- src/mgbx/timer.c: the divider, and TIMA with its reload after an overflow.
pub mod Edge
pub mod Period
pub mod Overflow
pub mod Range
mod Tests
use aarch.Prelude.{
  ℕ, ◌+◌, ◌/◌, ◌%◌, ◌^◌, bit_and, bit_or, u8, u16, ◌<<<◌, ◌>>>◌, nonzero, ◌==◌, if◌then◌else◌, ◌&&◌,
  Bool, not,
}
use aarch.Mgbx.State.{Mgbx, Timer}
use aarch.Mgbx.Interrupt.{request_interrupt}

abbrev pub div_addr : ℕ
div_addr = 0xff04

abbrev pub tima_addr : ℕ
tima_addr = 0xff05

abbrev pub tma_addr : ℕ
tma_addr = 0xff06

abbrev pub tac_addr : ℕ
tac_addr = 0xff07

-- `tick_bit`
abbrev pub tick_bit : ℕ → ℕ
tick_bit select =
    if select == 0
    then 2 ^ 7
    else if select == 1
    then 2 ^ 1
    else if select == 2
    then 2 ^ 3
    else 2 ^ 5

abbrev pub tac_enabled : Timer → Bool
tac_enabled tm = nonzero (bit_and tm.tac 0x04)

abbrev pub tac_select : Timer → ℕ
tac_select tm = bit_and tm.tac 3

abbrev pub edge_mask : Timer → ℕ
edge_mask tm = tick_bit (bit_and (tac_select tm) 3)

-- It changes the timer only.
unfoldable pub timer_tick_edge : Timer → ℕ → ℕ → Timer
timer_tick_edge tm old now =
    if not (tac_enabled tm)
    then tm
    else if nonzero (bit_and old (edge_mask tm)) && (bit_and now (edge_mask tm) == 0)
    then (if u8 (tm.tima + 1) == 0
        then record tm { tima = 0; tima_reload = 1 }
        else record tm { tima = u8 (tm.tima + 1) })
    else tm

-- Every field is set.
unfoldable pub timer_reset : Timer
timer_reset = record {
  counter = 0xab00 >>> 2;
  tima = 0;
  tma = 0;
  tac = bit_and 0xf8 0x07;
  tima_reload = 0;
}

-- The reload of an overflow one call ago.
unfoldable pub timer_reload : Mgbx → Mgbx
timer_reload gb =
    let tm = gb.timer in
    if nonzero tm.tima_reload
    then request_interrupt (record gb { timer = record tm { tima_reload = 0; tima = tm.tma } }) 2
    else gb

unfoldable pub timer_step : Mgbx → ℕ → Mgbx
timer_step gb t_cycles =
    let gb' = timer_reload gb in
    let tm = gb'.timer in
    let now = u16 (tm.counter + 1) in
    record gb' { timer = timer_tick_edge (record tm { counter = now }) tm.counter now }

unfoldable pub timer_read : Timer → ℕ → ℕ
timer_read tm addr =
    if addr == div_addr
    then u8 (tm.counter >>> 6)
    else if addr == tima_addr
    then tm.tima
    else if addr == tma_addr
    then tm.tma
    else if addr == tac_addr
    then bit_or tm.tac 0xf8
    else 0xff

unfoldable pub timer_write : Timer → ℕ → ℕ → Timer
timer_write tm addr v =
    if addr == div_addr
    then timer_tick_edge (record tm { counter = 0 }) tm.counter 0
    else if addr == tima_addr
    then record tm { tima = v; tima_reload = 0 }
    else if addr == tma_addr
    then record tm { tma = v }
    else if addr == tac_addr
    then record tm { tac = bit_and v 0x07 }
    else tm
