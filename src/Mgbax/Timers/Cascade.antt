-- ===== src/Mgbax/Timers/Cascade.antt =====
-- The cascade of an overflow, and the registers of the timers.
use aarch.Prelude.{
  ℕ, ◌+◌, ◌≡◌, refl, ap, ◌∙◌, arith, bit_and, nonzero, ltb, ◌==◌, Bool, ◌&&◌, if◌then◌else◌,
  branches,
}
use aarch.Mgbax.Timers.{
  Gba, gba_request_irq, reloaded, interrupted, counted, cascade, timer_overflow,
}
use aarch.Mgbax.Timers.Count.{after_tick}

-- The next channel takes its overflow.
abbrev pub cascades : Gba → ℕ → Bool
cascades g ch = ltb ch 3 && nonzero (bit_and (g.timers.ctrl (ch + 1)) 0x04)

-- The counters after an overflow of `ch`.
abbrev pub overflowed : Gba → ℕ → ℕ → ℕ
overflowed g ch j =
    if j == ch
    then g.timers.reload ch
    else if cascades g ch && j == ch + 1
    then after_tick (g.timers.reload (ch + 1)) (g.timers.counter (ch + 1))
    else g.timers.counter j

interrupted-counter : (g : Gba) (by : ℕ) → (interrupted g by).timers.counter ≡ g.timers.counter
unfolding interrupted gba_request_irq
interrupted-counter g by =
    branches (λ (r : Gba). r.timers.counter ≡ g.timers.counter)
      (nonzero (bit_and (g.timers.ctrl by) 0x40)) (λ _. refl) (λ _. refl)

cascade-counter :
    (g : Gba) (next j : ℕ)
    → (cascade g next).timers.counter j ≡ (
        if j == next
        then after_tick (g.timers.reload next) (g.timers.counter next)
        else g.timers.counter j)
unfolding cascade reloaded counted
cascade-counter g next j =
    branches
      (λ (r : Gba). r.timers.counter j ≡ (
        if j == next
        then after_tick (g.timers.reload next) (g.timers.counter next)
        else g.timers.counter j))
      (ltb 0xffff (g.timers.counter next + 1))
      (λ t. ap (λ (f : ℕ → ℕ). f j) (interrupted-counter _ next) ∙ ground arith) (λ f. ground arith)

-- An overflow of a channel reloads it, and counts the next one up by one when that is in cascade,
-- whether it is enabled or not; that one reloads in turn where it stood at 0xFFFF (or above), and no
-- other counter changes: the overflow of the second channel reaches no third one.
pub timer_overflow-counter :
    (g : Gba) (ch j : ℕ) → (timer_overflow g ch).timers.counter j ≡ overflowed g ch j
unfolding timer_overflow reloaded
timer_overflow-counter g ch j =
    ap (λ (f : ℕ → ℕ). f j) (interrupted-counter _ ch)
    ∙ branches (λ (r : Gba). r.timers.counter j ≡ overflowed g ch j) (cascades g ch)
        (λ t. cascade-counter (reloaded g ch) (ch + 1) j ∙ ground arith) (λ f. ground arith)
