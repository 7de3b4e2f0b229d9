-- ===== src/Mgbx/Lifecycle/Devices.antt =====
-- The devices keep the machine valid: the steps of the PPU, the timer, the APU and the clock.
use aarch.Prelude.{
  branches, switch, ℕ, zero, suc, ◌-◌, ◌<◌, ◌≡◌, arith, bit_or-lt_pow, nonzero, leb, Bytes, IsBytes,
}
use aarch.Mgbx.State.{Mgbx, Apu, Timer, Cart}
use aarch.Mgbx.Cart.Bounds.{IsValid as CartIsValid}
use aarch.Mgbx.Cart.Clock.{second, count_second, clock_loop, tick_rtc}
use aarch.Mgbx.Timer.{timer_reload, timer_step, timer_tick_edge}
use aarch.Mgbx.Apu.{chan_len_tick, envelope_tick, sweep_tick}
use aarch.Mgbx.Apu.Step.{frame_sequencer, put_sample, sample_loop, apu_step}
use aarch.Mgbx.Machine.Valid.{IsValid, ApuIsValid}
use aarch.Mgbx.Machine.Writes.{request_interrupt-IsValid}

pub with_timer :
    {gb : Mgbx} (tm : Timer)
    → IsValid gb
    → (tm.tima < 256) × (tm.tma < 256) × (tm.tac < 256)
    → IsValid (record gb { timer = tm })
with_timer tm v h = record {
  cart = v.cart;
  ppu = v.ppu;
  mem = v.mem;
  timer = h;
  apu = v.apu;
  cpu = v.cpu;
}

timer_reload-IsValid : {gb : Mgbx} → IsValid gb → IsValid (timer_reload gb)
unfolding timer_reload
timer_reload-IsValid {gb} v =
    branches IsValid (nonzero gb.timer.tima_reload)
      (λ _. request_interrupt-IsValid 2 (with_timer _ v (omega (arith, v.timer)))) (λ _. v)

pub timer_step-IsValid : {gb : Mgbx} (t : ℕ) → IsValid gb → IsValid (timer_step gb t)
unfolding timer_step timer_tick_edge
timer_step-IsValid {gb} t v =
    let v' = timer_reload-IsValid v in with_timer _ v' (ground (arith, v'.timer))

-- What the mixer and the channels read is the same.
Mixes : Apu → Apu → Type 0
Mixes apu apu' = (apu'.wave_ram ≡ apu.wave_ram) × (apu'.nr50 ≡ apu.nr50) × (apu'.nr51 ≡ apu.nr51)

frame_sequencer-Mixes : (apu : Apu) (t : ℕ) → Mixes apu (frame_sequencer apu t)
unfolding frame_sequencer chan_len_tick envelope_tick sweep_tick Mixes
frame_sequencer-Mixes apu t = ground arith

put_sample-Mixes : (apu : Apu) → Mixes apu (put_sample apu)
unfolding put_sample Mixes
put_sample-Mixes apu = ground arith

Mixes-IsValid : {apu apu' : Apu} → Mixes apu apu' → ApuIsValid apu → ApuIsValid apu'
unfolding Mixes
Mixes-IsValid m v = record {
  wave_ram = rw m.0 v.wave_ram;
  mixer = omega (arith, m.1, m.2, v.mixer);
}

sample_loop-IsValid : (fuel : ℕ) {apu : Apu} → ApuIsValid apu → ApuIsValid (sample_loop fuel apu)
unfolding sample_loop
sample_loop-IsValid zero v = v
sample_loop-IsValid (suc fuel) {apu} v =
    let spent : Apu = record apu { sample_acc = apu.sample_acc - 128 } in
    switch ApuIsValid (leb 128 apu.sample_acc) (λ _. v)
      (λ _. sample_loop-IsValid fuel (
        Mixes-IsValid (put_sample-Mixes spent) (record { wave_ram = v.wave_ram; mixer = v.mixer })))

apu_step-IsValid : {apu : Apu} (t : ℕ) → ApuIsValid apu → ApuIsValid (apu_step apu t)
unfolding apu_step
apu_step-IsValid {apu} t v =
    let v' = Mixes-IsValid (frame_sequencer-Mixes apu t) v in
    sample_loop-IsValid _ (record { wave_ram = v'.wave_ram; mixer = v'.mixer })

count_second-IsBytes : (rtc : Bytes) → IsBytes rtc → IsBytes (count_second rtc)
unfolding count_second
count_second-IsBytes rtc h i = ground (arith, h i, h 4, bit_or-lt_pow 8 (rtc 4) 0x80)

with_clock :
    {cart : Cart} (divider : ℕ) (rtc : Bytes)
    → CartIsValid cart
    → IsBytes rtc
    → CartIsValid (record cart { rtc_divider = divider; rtc = rtc })
with_clock divider rtc v h = record {
  image = v.image;
  rom = v.rom;
  image_bytes = v.image_bytes;
  banks = v.banks;
  rom_size = v.rom_size;
  ram_bytes = v.ram_bytes;
  rtc_bytes = h;
  latched_bytes = v.latched_bytes;
  mbc2_bytes = v.mbc2_bytes;
  bank1 = v.bank1;
  bank2 = v.bank2;
  rom_bank = v.rom_bank;
}

clock_loop-IsValid :
    (fuel : ℕ) {cart : Cart} → CartIsValid cart → CartIsValid (clock_loop fuel cart)
unfolding clock_loop
clock_loop-IsValid zero v = v
clock_loop-IsValid (suc fuel) {cart} v =
    switch CartIsValid (leb second cart.rtc_divider) (λ _. v)
      (λ _.
        clock_loop-IsValid fuel
          (with_clock (cart.rtc_divider - second) _ v (count_second-IsBytes cart.rtc v.rtc_bytes)))

tick_rtc-IsValid : {cart : Cart} (t : ℕ) → CartIsValid cart → CartIsValid (tick_rtc cart t)
unfolding tick_rtc
tick_rtc-IsValid {cart} t v =
    branches CartIsValid (nonzero cart.rtc_halt) (λ _. v)
      (λ _. clock_loop-IsValid _ (with_clock _ cart.rtc v v.rtc_bytes))

pub sound_and_clock-IsValid :
    {gb : Mgbx} (t : ℕ)
    → IsValid gb
    → IsValid (record gb { apu = apu_step gb.apu t; cart = tick_rtc gb.cart t })
sound_and_clock-IsValid t v = record {
  cart = tick_rtc-IsValid t v.cart;
  ppu = v.ppu;
  mem = v.mem;
  timer = v.timer;
  apu = apu_step-IsValid t v.apu;
  cpu = v.cpu;
}
