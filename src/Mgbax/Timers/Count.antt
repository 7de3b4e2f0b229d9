-- ===== src/Mgbax/Timers/Count.antt =====
-- How far a timer of the Game Boy Advance counts.
use native.Mathlib.Nat.{mod-eq_of_lt, mod-eq-sub-mod}
use aarch.Prelude.{
  ℕ, suc, ◌+◌, ◌-◌, ◌%◌, ◌<◌, ◌≡◌, ◌≢◌, refl, arith, bit_and, nonzero, ltb, false, ◌&&◌,
  if◌then◌else◌, branches, Bool-cases, inl, inr,
}
use aarch.Mgbax.Timers.{
  Gba, gba_request_irq, reloaded, interrupted, counted, cascade, timer_overflow, timer_tick,
}

-- What a tick of a channel leaves for the next one.
pub record Ticked (g g' : Gba) (ch value : ℕ) : Type 0 where
  pub counter : g'.timers.counter ch ≡ value
  pub prescaler : g'.timers.prescaler ≡ g.timers.prescaler
  pub reload : g'.timers.reload ≡ g.timers.reload
  pub ctrl : g'.timers.ctrl ≡ g.timers.ctrl

interrupted-Ticked :
    {g g' : Gba} {ch value : ℕ} (by : ℕ)
    → Ticked g g' ch value
    → Ticked g (interrupted g' by) ch value
unfolding interrupted gba_request_irq
interrupted-Ticked {g} {g'} {ch} {value} by h =
    branches (λ r. Ticked g r ch value) (nonzero (bit_and (g'.timers.ctrl by) 0x40))
      (λ _. record {
        counter = h.counter;
        prescaler = h.prescaler;
        reload = h.reload;
        ctrl = h.ctrl;
      })
      (λ _. h)

cascade-Ticked :
    {g g' : Gba} {ch value : ℕ} (by : ℕ)
    → ch ≢ by
    → Ticked g g' ch value
    → Ticked g (cascade g' by) ch value
unfolding cascade reloaded counted
cascade-Ticked {g} {g'} {ch} {value} by other h =
    branches (λ r. Ticked g r ch value) (ltb 0xffff (g'.timers.counter by + 1))
      (λ _. interrupted-Ticked by (record {
        counter = ground (arith, other, h.counter);
        prescaler = h.prescaler;
        reload = h.reload;
        ctrl = h.ctrl;
      }))
      (λ _. record {
        counter = ground (arith, other, h.counter);
        prescaler = h.prescaler;
        reload = h.reload;
        ctrl = h.ctrl;
      })

-- The value after one tick, with the reload after 0xffff.
abbrev pub after_tick : ℕ → ℕ → ℕ
after_tick reload c = if ltb c 0xffff then c + 1 else reload

pub timer_tick-Ticked :
    (g : Gba) (ch : ℕ)
    → Ticked g (timer_tick g ch) ch (after_tick (g.timers.reload ch) (g.timers.counter ch))
unfolding timer_tick timer_overflow reloaded counted
timer_tick-Ticked g ch =
    let value = after_tick (g.timers.reload ch) (g.timers.counter ch) in
    branches (λ r. Ticked g r ch value) (ltb 0xffff (g.timers.counter ch + 1))
      (λ t.
        let base : Ticked g (reloaded g ch) ch value = record {
          counter = ground arith;
          prescaler = refl;
          reload = refl;
          ctrl = refl;
        } in
        interrupted-Ticked ch (
          branches (λ r. Ticked g r ch value)
            (ltb ch 3 && nonzero (bit_and (g.timers.ctrl (ch + 1)) 0x04))
            (λ _. cascade-Ticked (ch + 1) (λ e. omega (arith, e)) base) (λ _. base)))
      (λ f. record { counter = ground arith; prescaler = refl; reload = refl; ctrl = refl })

-- The value after `n` ticks: the counter runs up to 0xffff, and then in the cycle of the reload.
abbrev pub after_ticks : ℕ → ℕ → ℕ → ℕ
after_ticks reload c n =
    if ltb (c + n) 0x1_0000 then c + n else reload + (c + n - 0x1_0000) % (0x1_0000 - reload)

pub after_ticks_next :
    (reload c n : ℕ)
    → reload < 0x1_0000
    → c < 0x1_0000
    → after_ticks reload (after_tick reload c) n ≡ after_ticks reload c (suc n)
after_ticks_next reload c n h k = elim (Bool-cases (ltb c 0xffff)) [
  | inl t ↦ let same : c + 1 + n ≡ c + suc n = omega arith in rw (t, same) refl
  | inr f ↦
      let top : c ≡ 0xffff = ground arith in
      elim (Bool-cases (ltb (reload + n) 0x1_0000)) [
        | inl low ↦
            let small : n % (0x1_0000 - reload) ≡ n = mod-eq_of_lt (ground arith) in
            let past : ltb (c + suc n) 0x1_0000 ≡ false = ground arith in
            let rest : c + suc n - 0x1_0000 ≡ n = omega (arith, top) in
            rw (f, low, past, rest, small) refl
        | inr high ↦
            let past : ltb (c + suc n) 0x1_0000 ≡ false = ground arith in
            let rest : c + suc n - 0x1_0000 ≡ n = omega (arith, top) in
            let back : n % (0x1_0000 - reload) ≡ (n - (0x1_0000 - reload)) % (0x1_0000 - reload) =
              mod-eq-sub-mod (ground arith) in
            let shift : n - (0x1_0000 - reload) ≡ reload + n - 0x1_0000 = omega (arith, h) in
            rw (f, high, past, rest, back, shift) refl
      ]
]
