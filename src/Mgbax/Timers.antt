-- ===== src/Mgbax/Timers.antt =====
-- src/mgbax/timer.c: the four timers, their prescalers, the cascade and the overflow interrupts. An
-- array of four is a function, and no index here is above 3.
pub mod Count
pub mod Run
pub mod Others
pub mod Step
pub mod Cascade
mod Tests
use aarch.Prelude.{
  ℕ, zero, suc, ◌+◌, ◌-◌, ◌/◌, ◌^◌, ◌%◌, bit_and, bit_or, u8, u16, u32, nonzero, ltb, leb, ◌==◌,
  Bool, true, false, not, ◌&&◌, if◌then◌else◌, ◌<<<◌, ◌>>>◌, update,
}

-- `gba_timers`
pub record Timers : Type 0 where
  pub reload : ℕ → ℕ
  pub counter : ℕ → ℕ
  pub ctrl : ℕ → ℕ
  pub prescaler : ℕ → ℕ
  pub tick_div : ℕ → ℕ
  pub ovf_bits : ℕ

-- What the timers touch of `gba_t`: themselves and `mem.if_reg`.
pub record Gba : Type 0 where
  pub timers : Timers
  pub if_reg : ℕ

unfoldable pub prescale_div : ℕ → ℕ
prescale_div select =
    if select == 0 then 1 else if select == 1 then 64 else if select == 2 then 256 else 1024

unfoldable pub timers_reset : Timers
timers_reset = record {
  reload = λ _. 0;
  counter = λ _. 0;
  ctrl = λ _. 0;
  prescaler = λ _. 0;
  tick_div = λ _. 0;
  ovf_bits = 0;
}

unfoldable pub gba_request_irq : Gba → ℕ → Gba
gba_request_irq g bits = record g { if_reg = bit_or g.if_reg bits }

-- A channel past 0xffff: the reload, and the notification of the APU.
unfoldable pub reloaded : Gba → ℕ → Gba
reloaded g ch =
    let t = g.timers in
    record g {
      timers = record t {
        counter = update t.counter ch (t.reload ch);
        ovf_bits = bit_or t.ovf_bits (u8 (1 <<< ch));
      };
    }

unfoldable pub interrupted : Gba → ℕ → Gba
interrupted g ch =
    if nonzero (bit_and (g.timers.ctrl ch) 0x40) then gba_request_irq g (u16 (0x0008 <<< ch)) else g

unfoldable pub counted : Gba → ℕ → ℕ → Gba
counted g ch v = record g { timers = record (g.timers) { counter = update g.timers.counter ch v } }

-- The cascade into a channel.
unfoldable pub cascade : Gba → ℕ → Gba
cascade g next =
    let v = g.timers.counter next + 1 in
    if ltb 0xffff v then interrupted (reloaded g next) next else counted g next v

unfoldable pub timer_overflow : Gba → ℕ → Gba
timer_overflow g ch =
    let g' = reloaded g ch in
    interrupted
      (if ltb ch 3 && nonzero (bit_and (g.timers.ctrl (ch + 1)) 0x04)
        then cascade g' (ch + 1)
        else g')
      ch

-- One tick of a channel.
unfoldable pub timer_tick : Gba → ℕ → Gba
timer_tick g ch =
    let v = g.timers.counter ch + 1 in if ltb 0xffff v then timer_overflow g ch else counted g ch v

unfoldable pub accumulated : Gba → ℕ → ℕ → Gba
accumulated g ch cycles = record g {
  timers = record (g.timers) { prescaler = update g.timers.prescaler ch cycles };
}

-- The loop of a channel, on fuel.
unfoldable pub tick_loop : ℕ → ℕ → ℕ → Gba → Gba
tick_loop zero div ch g = g
tick_loop (suc fuel) div ch g = elim (leb div (g.timers.prescaler ch)) [
  | true ↦ tick_loop fuel div ch (timer_tick (accumulated g ch (g.timers.prescaler ch - div)) ch)
  | false ↦ g
]

-- A channel in `gba_timers_step`: a tick takes `div` cycles off, so the fuel is the quotient.
unfoldable pub channel_step : ℕ → ℕ → Gba → Gba
channel_step cycles ch g =
    let ctrl = g.timers.ctrl ch in
    let div = prescale_div (bit_and ctrl 3) in
    let total = u32 (g.timers.prescaler ch + cycles) in
    if not (nonzero (bit_and ctrl 0x80))
    then g
    else if nonzero (bit_and ctrl 0x04) && not (ch == 0)
    then g
    else tick_loop (total / div) div ch (accumulated g ch total)

unfoldable pub timers_step : Gba → ℕ → Gba
timers_step g cycles =
    channel_step cycles 3 (channel_step cycles 2 (channel_step cycles 1 (channel_step cycles 0 g)))

abbrev pub channel : ℕ → ℕ
channel addr = bit_and (addr >>> 2) 3

unfoldable pub timers_read : Timers → ℕ → ℕ
timers_read t addr =
    if nonzero (bit_and addr 2) then t.ctrl (channel addr) else t.counter (channel addr)

unfoldable pub timers_write : Gba → ℕ → ℕ → Gba
timers_write g addr v =
    let t = g.timers in
    let ch = channel addr in
    let t' : Timers = record t { ctrl = update t.ctrl ch v } in
    if nonzero (bit_and addr 2)
    then if not (nonzero (bit_and (t.ctrl ch) 0x80)) && nonzero (bit_and v 0x80)
      then record g {
        timers = record t' {
          counter = update t.counter ch (t.reload ch);
          prescaler = update t.prescaler ch 0;
        };
      }
      else record g { timers = t' }
    else record g {
      timers = record t { reload = update t.reload ch v; counter = update t.counter ch v };
    }
