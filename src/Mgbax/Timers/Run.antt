-- ===== src/Mgbax/Timers/Run.antt =====
-- The loop of one channel of the timers.
use aarch.Prelude.{
  ℕ, zero, suc, ◌+◌, ◌-◌, ◌*◌, ◌/◌, ◌%◌, ◌<◌, ◌≡◌, refl, sym, ap, ◌∙◌, arith, bit_and, u32, nonzero,
  leb, ◌==◌, true, false, not, ◌&&◌,
}
use native.Mathlib.Nat.{div-add-mod'}
use aarch.Mgbax.Timers.{Gba, prescale_div, timer_tick, accumulated, tick_loop, channel_step}
use aarch.Mgbax.Timers.Count.{timer_tick-Ticked, after_ticks, after_ticks_next}

-- A channel after `n` ticks that leave `rest` cycles.
pub record Ran (g g' : Gba) (ch n rest : ℕ) : Type 0 where
  pub counter : g'.timers.counter ch ≡ after_ticks (g.timers.reload ch) (g.timers.counter ch) n
  pub prescaler : g'.timers.prescaler ch ≡ rest
  pub ctrl : g'.timers.ctrl ≡ g.timers.ctrl

after_ticks-zero : (reload c : ℕ) → c < 0x1_0000 → after_ticks reload c 0 ≡ c
after_ticks-zero reload c h = ground arith

tick_loop-Ran :
    (fuel div ch rest : ℕ) (g : Gba)
    → g.timers.prescaler ch ≡ fuel * div + rest
    → g.timers.reload ch < 0x1_0000
    → g.timers.counter ch < 0x1_0000
    → Ran g (tick_loop fuel div ch g) ch fuel rest
unfolding tick_loop accumulated
tick_loop-Ran zero div ch rest g e h k = record {
  counter = sym (after_ticks-zero (g.timers.reload ch) (g.timers.counter ch) k);
  prescaler = omega (arith, e);
  ctrl = refl;
}
tick_loop-Ran (suc fuel) div ch rest g e h k =
    let more : suc fuel * div ≡ div + fuel * div = omega arith in
    let due : leb div (g.timers.prescaler ch) ≡ true = ground (arith, e, more) in
    let g0 = accumulated g ch (g.timers.prescaler ch - div) in
    let t = timer_tick-Ticked g0 ch in
    let g1 = timer_tick g0 ch in
    let left : g0.timers.prescaler ch ≡ fuel * div + rest = ground (arith, e, more) in
    let reload : g1.timers.reload ch ≡ g.timers.reload ch = ap (λ (f : ℕ → ℕ). f ch) t.reload in
    let next =
      tick_loop-Ran fuel div ch rest g1 (ap (λ (f : ℕ → ℕ). f ch) t.prescaler ∙ left)
        (omega (arith, reload, h)) (ground (arith, t.counter, h, k)) in
    rw (tick_loop, due)
      (record {
        counter =
            next.counter
            ∙ ap (λ (r : ℕ). after_ticks r (g1.timers.counter ch) fuel) reload
            ∙ ap (λ (c : ℕ). after_ticks (g.timers.reload ch) c fuel) t.counter
            ∙ after_ticks_next (g.timers.reload ch) (g.timers.counter ch) fuel h k;
        prescaler = next.prescaler;
        ctrl = next.ctrl ∙ t.ctrl;
      })

-- The channel counts cycles: it is enabled, and not in cascade, where channel 0 never is.
abbrev pub Runs : Gba → ℕ → Type 0
Runs g ch =
    (nonzero (bit_and (g.timers.ctrl ch) 0x80) ≡ true)
    × ((nonzero (bit_and (g.timers.ctrl ch) 0x04) && not (ch == 0)) ≡ false)
    × (g.timers.reload ch < 0x1_0000)
    × (g.timers.counter ch < 0x1_0000)

abbrev pub divider : Gba → ℕ → ℕ
divider g ch = prescale_div (bit_and (g.timers.ctrl ch) 3)

abbrev pub due : Gba → ℕ → ℕ → ℕ
due g ch cycles = u32 (g.timers.prescaler ch + cycles)

pub channel_step-Ran :
    (cycles ch : ℕ) (g : Gba)
    → Runs g ch
    → Ran g
        (channel_step cycles ch g)
        ch
        (due g ch cycles / divider g ch)
        (due g ch cycles % divider g ch)
unfolding channel_step accumulated
channel_step-Ran cycles ch g (on, own, h, k) =
    let total = due g ch cycles in
    let g0 = accumulated g ch total in
    let place : g0.timers.prescaler ch
        ≡ total / divider g ch * divider g ch + total % divider g ch =
      ground (arith, div-add-mod' total (divider g ch)) in
    let ran =
      tick_loop-Ran (total / divider g ch) (divider g ch) ch (total % divider g ch) g0 place h k in
    rw (on, own) (record { counter = ran.counter; prescaler = ran.prescaler; ctrl = ran.ctrl })
