-- ===== src/Mgbax/Timers/Step.antt =====
-- A step of the timers, for the channels that count cycles.
use aarch.Prelude.{
  ℕ, zero, suc, ◌+◌, ◌/◌, ◌%◌, ◌<◌, ◌≡◌, ◌≢◌, refl, ap, ◌∙◌, arith, bit_and, u32, List, [], ◌∷◌,
}
use aarch.Mgbax.Timers.{Gba, prescale_div, channel_step, timers_step}
use aarch.Mgbax.Timers.Count.{after_ticks}
use aarch.Mgbax.Timers.Run.{Ran, Runs, due, divider, channel_step-Ran}
use aarch.Mgbax.Timers.Others.{Kept, Kept-trans, IsOwn, channel_step-Kept}

-- The steps of the channels before and after.
around :
    {g g1 g2 g' : Gba} {ch n rest : ℕ}
    → Kept g g1 ch
    → Ran g1 g2 ch n rest
    → Kept g2 g' ch
    → Ran g g' ch n rest
around {g} {g1} {ch = ch} {n = n} before ran after = record {
  counter =
      after.counter
      ∙ ran.counter
      ∙ ap (λ (f : ℕ → ℕ). after_ticks (f ch) (g1.timers.counter ch) n) before.reload
      ∙ ap (λ (c : ℕ). after_ticks (g.timers.reload ch) c n) before.counter;
  ctrl = after.ctrl ∙ ran.ctrl ∙ before.ctrl;
  prescaler = after.prescaler ∙ ran.prescaler;
}

Runs-Kept : {g g' : Gba} (ch : ℕ) → Kept g g' ch → Runs g ch → Runs g' ch
Runs-Kept {g} {g'} ch k (on, own, h, c) =
    (rw k.ctrl on, rw k.ctrl own, rw k.reload h, rw k.counter c)

Kept-refl : (g : Gba) (j : ℕ) → Kept g g j
Kept-refl g j = record { counter = refl; prescaler = refl; reload = refl; ctrl = refl }

IsOwn-Kept : {g g' : Gba} (ch : ℕ) → Kept g g' ch → IsOwn g ch → IsOwn g' ch
IsOwn-Kept ch k own = rw k.ctrl own

-- Steps of channels other than `j`, in their order.
run : ℕ → List ℕ → Gba → Gba
run cycles [] g = g
run cycles (ch ∷ chs) g = run cycles chs (channel_step cycles ch g)

abbrev Others : ℕ → List ℕ → Type 0
Others j [] = Unit {0}
Others j (ch ∷ chs) = (j ≢ ch) × Others j chs

run-Kept :
    (cycles : ℕ) (chs : List ℕ) {j : ℕ} (g : Gba)
    → IsOwn g j
    → Others j chs
    → Kept g (run cycles chs g) j
unfolding run
run-Kept cycles [] {j} g own others = Kept-refl g j
run-Kept cycles (ch ∷ chs) {j} g own (other, others) =
    let first = channel_step-Kept cycles ch g own other in
    Kept-trans first
      (run-Kept cycles chs (channel_step cycles ch g) (IsOwn-Kept j first own) others)

run-Ran :
    (cycles : ℕ) (before : List ℕ) (ch : ℕ) (after : List ℕ) (g : Gba)
    → Others ch before
    → Others ch after
    → Runs g ch
    → Ran g
        (run cycles after (channel_step cycles ch (run cycles before g)))
        ch
        (due g ch cycles / divider g ch)
        (due g ch cycles % divider g ch)
run-Ran cycles before ch after g b a (on, own, h, c) =
    let runs : Runs g ch = (on, own, h, c) in
    let g1 = run cycles before g in
    let k = run-Kept cycles before g own b in
    let runs1 = Runs-Kept ch k runs in
    let ran = channel_step-Ran cycles ch g1 runs1 in
    let g2 = channel_step cycles ch g1 in
    let own2 : IsOwn g2 ch = rw (ran.ctrl, k.ctrl) own in
    let same_due : due g1 ch cycles ≡ due g ch cycles =
      ap (λ (p : ℕ). u32 (p + cycles)) k.prescaler in
    let same_div : divider g1 ch ≡ divider g ch =
      ap (λ (f : ℕ → ℕ). prescale_div (bit_and (f ch) 3)) k.ctrl in
    around k (rw (same_due, same_div) at ran) (run-Kept cycles after g2 own2 a)

-- A step of the timers by any number of cycles: a channel that counts cycles (enabled, and not in
-- cascade unless it is channel 0, with 16-bit values) adds them to its prescaler, as 32 bits; the
-- counter advances by the quotient with the divider, in the cycle from the reload to 0xFFFF, and the
-- remainder stays in the prescaler, whatever the other channels do.
pub timers_step-Ran :
    (g : Gba) (ch cycles : ℕ)
    → ch < 4
    → Runs g ch
    → Ran g
        (timers_step g cycles)
        ch
        (due g ch cycles / divider g ch)
        (due g ch cycles % divider g ch)
unfolding timers_step run
timers_step-Ran g zero cycles h runs =
    run-Ran cycles [] 0 (1 ∷ 2 ∷ 3 ∷ []) g tt
      ((λ e. omega (arith, e)), ((λ e. omega (arith, e)), ((λ e. omega (arith, e)), tt))) runs
timers_step-Ran g (suc zero) cycles h runs =
    run-Ran cycles (0 ∷ []) 1 (2 ∷ 3 ∷ []) g ((λ e. omega (arith, e)), tt)
      ((λ e. omega (arith, e)), ((λ e. omega (arith, e)), tt)) runs
timers_step-Ran g (suc (suc zero)) cycles h runs =
    run-Ran cycles (0 ∷ 1 ∷ []) 2 (3 ∷ []) g
      ((λ e. omega (arith, e)), ((λ e. omega (arith, e)), tt)) ((λ e. omega (arith, e)), tt) runs
timers_step-Ran g (suc (suc (suc zero))) cycles h runs =
    run-Ran cycles (0 ∷ 1 ∷ 2 ∷ []) 3 [] g
      ((λ e. omega (arith, e)), ((λ e. omega (arith, e)), ((λ e. omega (arith, e)), tt))) tt runs
timers_step-Ran g (suc (suc (suc (suc ch)))) cycles h runs = absurd (omega arith)
