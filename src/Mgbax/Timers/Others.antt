-- ===== src/Mgbax/Timers/Others.antt =====
-- What a channel of the timers leaves of the others.
use aarch.Prelude.{
  ℕ, zero, suc, ◌+◌, ◌-◌, ◌/◌, ◌≡◌, ◌≢◌, refl, ap, ◌∙◌, arith, bit_and, nonzero, ltb, leb, ◌==◌,
  true, false, not, ◌&&◌, branches, Bool-cases, inl, inr,
}
use aarch.Mgbax.Timers.{
  Gba, gba_request_irq, reloaded, interrupted, counted, cascade, timer_overflow, timer_tick,
  accumulated, tick_loop, channel_step,
}
use aarch.Mgbax.Timers.Run.{due, divider}

-- What the step of another channel leaves of channel `j`.
pub record Kept (g g' : Gba) (j : ℕ) : Type 0 where
  pub counter : g'.timers.counter j ≡ g.timers.counter j
  pub prescaler : g'.timers.prescaler j ≡ g.timers.prescaler j
  pub reload : g'.timers.reload ≡ g.timers.reload
  pub ctrl : g'.timers.ctrl ≡ g.timers.ctrl

pub Kept-trans : {g g1 g2 : Gba} {j : ℕ} → Kept g g1 j → Kept g1 g2 j → Kept g g2 j
Kept-trans a b = record {
  counter = b.counter ∙ a.counter;
  prescaler = b.prescaler ∙ a.prescaler;
  reload = b.reload ∙ a.reload;
  ctrl = b.ctrl ∙ a.ctrl;
}

interrupted-Kept : {g g' : Gba} {j : ℕ} (by : ℕ) → Kept g g' j → Kept g (interrupted g' by) j
unfolding interrupted gba_request_irq
interrupted-Kept {g} {g'} {j} by h =
    branches (λ r. Kept g r j) (nonzero (bit_and (g'.timers.ctrl by) 0x40))
      (λ _. record {
        counter = h.counter;
        prescaler = h.prescaler;
        reload = h.reload;
        ctrl = h.ctrl;
      })
      (λ _. h)

reloaded-Kept : (g : Gba) {by j : ℕ} → j ≢ by → Kept g (reloaded g by) j
unfolding reloaded
reloaded-Kept g other = record {
  counter = ground (arith, other);
  prescaler = refl;
  reload = refl;
  ctrl = refl;
}

counted-Kept : (g : Gba) {by j : ℕ} (v : ℕ) → j ≢ by → Kept g (counted g by v) j
unfolding counted
counted-Kept g v other = record {
  counter = ground (arith, other);
  prescaler = refl;
  reload = refl;
  ctrl = refl;
}

cascade-Kept : (g : Gba) {by j : ℕ} → j ≢ by → Kept g (cascade g by) j
unfolding cascade
cascade-Kept g {by} {j} other =
    branches (λ r. Kept g r j) (ltb 0xffff (g.timers.counter by + 1))
      (λ _. interrupted-Kept by (reloaded-Kept g other))
      (λ _. counted-Kept g (g.timers.counter by + 1) other)

-- Channel `j` is not in cascade, or is channel 0.
abbrev pub IsOwn : Gba → ℕ → Type 0
IsOwn g j = (nonzero (bit_and (g.timers.ctrl j) 0x04) && not (j == 0)) ≡ false

-- A channel that the one before it cascades into is not its own.
not_into :
    (g : Gba) (ch : ℕ) {j : ℕ}
    → IsOwn g j
    → (ltb ch 3 && nonzero (bit_and (g.timers.ctrl (ch + 1)) 0x04)) ≡ true
    → j ≢ ch + 1
not_into g ch {j} own into e =
    let same : g.timers.ctrl j ≡ g.timers.ctrl (ch + 1) = ap g.timers.ctrl e in
    let own' : (nonzero (bit_and (g.timers.ctrl (ch + 1)) 0x04) && not (j == 0)) ≡ false =
      rw same at own in
    ground (arith, own', e, into)

timer_tick-Kept : (g : Gba) {ch j : ℕ} → IsOwn g j → j ≢ ch → Kept g (timer_tick g ch) j
unfolding timer_tick timer_overflow
timer_tick-Kept g {ch} {j} own other =
    branches (λ r. Kept g r j) (ltb 0xffff (g.timers.counter ch + 1))
      (λ _. interrupted-Kept ch (
        branches (λ r. Kept g r j) (ltb ch 3 && nonzero (bit_and (g.timers.ctrl (ch + 1)) 0x04))
          (λ into.
            Kept-trans (reloaded-Kept g other)
              (cascade-Kept (reloaded g ch) (not_into g ch own into)))
          (λ _. reloaded-Kept g other)))
      (λ _. counted-Kept g (g.timers.counter ch + 1) other)

tick_loop-Kept :
    (fuel div : ℕ) {ch j : ℕ} (g : Gba) → IsOwn g j → j ≢ ch → Kept g (tick_loop fuel div ch g) j
unfolding tick_loop accumulated
tick_loop-Kept zero div g own other = record {
  counter = refl;
  prescaler = refl;
  reload = refl;
  ctrl = refl;
}
tick_loop-Kept (suc fuel) div {ch} {j} g own other =
    elim (Bool-cases (leb div (g.timers.prescaler ch))) [
      | inl t ↦
          let g0 = accumulated g ch (g.timers.prescaler ch - div) in
          let first : Kept g g0 j = record {
            counter = refl;
            prescaler = ground (arith, other);
            reload = refl;
            ctrl = refl;
          } in
          let tick = timer_tick-Kept g0 own other in
          let own' : IsOwn (timer_tick g0 ch) j = rw tick.ctrl own in
          rw (tick_loop, t)
            (Kept-trans (Kept-trans first tick)
              (tick_loop-Kept fuel div (timer_tick g0 ch) own' other))
      | inr f ↦
          rw (tick_loop, f)
            (record { counter = refl; prescaler = refl; reload = refl; ctrl = refl })
    ]

pub channel_step-Kept :
    (cycles ch : ℕ) {j : ℕ} (g : Gba) → IsOwn g j → j ≢ ch → Kept g (channel_step cycles ch g) j
unfolding channel_step accumulated
channel_step-Kept cycles ch {j} g own other =
    let same : Kept g g j = record {
      counter = refl;
      prescaler = refl;
      reload = refl;
      ctrl = refl;
    } in
    let g0 = accumulated g ch (due g ch cycles) in
    let first : Kept g g0 j = record {
      counter = refl;
      prescaler = ground (arith, other);
      reload = refl;
      ctrl = refl;
    } in
    branches (λ r. Kept g r j) (not (nonzero (bit_and (g.timers.ctrl ch) 0x80))) (λ _. same)
      (λ _.
        branches (λ r. Kept g r j) (nonzero (bit_and (g.timers.ctrl ch) 0x04) && not (ch == 0))
          (λ _. same)
          (λ _.
            Kept-trans first
              (tick_loop-Kept (due g ch cycles / divider g ch) (divider g ch) g0 own other)))
