-- ===== src/Mgbx/Timer/Edge.antt =====
-- When TIMA counts: on the falling edge of the selected bit of the counter.
use aarch.Prelude.{
  ℕ, zero, suc, ◌+◌, ◌-◌, ◌/◌, ◌%◌, ◌^◌, ◌<◌, ◌≡◌, ap, arith, bit_and, bit_and_pow, bit_and_mask,
  u8, u16, nonzero, if◌then◌else◌, ◌==◌, ◌&&◌, true,
}
use aarch.Mgbx.State.{Timer}
use aarch.Mgbx.Timer.{timer_tick_edge, tac_enabled, tac_select, tick_bit, edge_mask}

-- The number of counter steps between two ticks of TIMA, by the select bits of TAC.
abbrev pub period : ℕ → ℕ
period select =
    if select == 0
    then 2 ^ 8
    else if select == 1
    then 2 ^ 2
    else if select == 2
    then 2 ^ 4
    else 2 ^ 6

-- A selected bit falls exactly when the counter comes to a multiple of the period.
pub falls :
    (s c : ℕ)
    → s < 4
    → c < 2 ^ 16
    → (nonzero (bit_and c (tick_bit s)) && (bit_and (u16 (c + 1)) (tick_bit s) == 0))
      ≡ ((c + 1) % period s == 0)
falls zero c h small = ground (arith, bit_and_pow 7 c, bit_and_pow 7 (u16 (c + 1)))
falls (suc zero) c h small = ground (arith, bit_and_pow 1 c, bit_and_pow 1 (u16 (c + 1)))
falls (suc (suc zero)) c h small = ground (arith, bit_and_pow 3 c, bit_and_pow 3 (u16 (c + 1)))
falls (suc (suc (suc zero))) c h small =
    ground (arith, bit_and_pow 5 c, bit_and_pow 5 (u16 (c + 1)))
falls (suc (suc (suc (suc s)))) c h small = absurd (omega arith)

-- How many multiples of the period the counter passes in `n` steps.
abbrev pub ticks : ℕ → ℕ → ℕ → ℕ
ticks s c n = (c + n) / period s - c / period s

pub ticks-suc :
    (s c n : ℕ)
    → s < 4
    → c < 2 ^ 16
    → ticks s c (suc n) ≡ (if (c + 1) % period s == 0 then 1 else 0) + ticks s (u16 (c + 1)) n
ticks-suc zero c n h small = ground arith
ticks-suc (suc zero) c n h small = ground arith
ticks-suc (suc (suc zero)) c n h small = ground arith
ticks-suc (suc (suc (suc zero))) c n h small = ground arith
ticks-suc (suc (suc (suc (suc s)))) c n h small = absurd (omega arith)

-- One step of the counter on an enabled timer.
pub timer_tick_edge_lem :
    (tm : Timer) (c : ℕ)
    → tac_enabled tm ≡ true
    → c < 2 ^ 16
    → timer_tick_edge tm c (u16 (c + 1)) ≡ (
        if (c + 1) % period (tac_select tm) == 0
        then (if u8 (tm.tima + 1) == 0
            then record tm { tima = 0; tima_reload = 1 }
            else record tm { tima = u8 (tm.tima + 1) })
        else tm)
unfolding timer_tick_edge
timer_tick_edge_lem tm c on small =
    rw (on, same, falls (tac_select tm) c (omega (arith, bit_and_mask 2 tm.tac)) small)
  where
    same : edge_mask tm ≡ tick_bit (tac_select tm)
    same =
        ap tick_bit {x = bit_and (tac_select tm) 3} {y = tac_select tm}
          (omega (arith, bit_and_mask 2 (tac_select tm), bit_and_mask 2 tm.tac))
