-- ===== src/Mgbx/Lifecycle.antt =====
-- src/mgbx/mgbx.c: power-on, loading, and the frame loop.
pub mod Devices
pub mod Frame
pub mod Load
use aarch.Prelude.{
  ℕ, zero, suc, ◌+◌, ◌*◌, ◌^◌, u32, nonzero, ◌==◌, ltb, if◌then◌else◌, ◌&&◌, ◌||◌, not, Bool, true,
  false, Bytes, zeroed, Option, none, some, ◌>>=◌,
}
use aarch.Common.Result.{EmuResult, ok, einval, enorom}
use aarch.Mgbx.State.{Mgbx, Mem, Cart, Ppu, Joypad, Apu}
use aarch.Mgbx.Cart.Load.{cart_load, cart_reset}
use aarch.Mgbx.Cart.Clock.{tick_rtc}
use aarch.Mgbx.Ppu.{ppu_reset}
use aarch.Mgbx.Ppu.Step.{ppu_step}
use aarch.Mgbx.Timer.{timer_reset, timer_step}
use aarch.Mgbx.Apu.{apu_reset, zero_square, zero_wave, zero_noise}
use aarch.Mgbx.Apu.Step.{apu_step}
use aarch.Mgbx.Cpu.Exec.Step.{cpu_reset, cpu_step}

-- `mgbx_power_on`, which is also `mgbx_reset`.
unfoldable pub power_on : Mgbx → Mgbx
power_on gb = record {
  mem = record {
    wram = zeroed;
    hram = zeroed;
    ie = 0;
    if_reg = 0xe1;
    sb = 0;
    sc = 0;
    oam_dma_page = 0;
    dma_active = 0;
    dma_value = 0;
    dma_index = 0;
  };
  cpu = cpu_reset;
  ppu = ppu_reset gb.ppu;
  timer = timer_reset;
  apu = apu_reset gb.apu;
  cart = cart_reset gb.cart;
  joypad = record (gb.joypad) { select = 0x30; buttons = 0 };
  total_cycles = 0;
}

-- The structs that the `init` functions clear. `audio` has 2048 elements.
abbrev pub init_ppu : Ppu
init_ppu = ppu_reset (record {
  vram = zeroed;
  oam = zeroed;
  lcdc = 0;
  stat = 0;
  scy = 0;
  scx = 0;
  ly = 0;
  lyc = 0;
  bgp = 0;
  obp0 = 0;
  obp1 = 0;
  wy = 0;
  wx = 0;
  dot = 0;
  win_line = 0;
  fb = zeroed;
  line_pixels = zeroed;
  sprite_drawn = zeroed;
})

abbrev pub init_apu : Apu
init_apu = apu_reset (record {
  enabled = 0;
  nr50 = 0;
  nr51 = 0;
  sq0 = zero_square;
  sq1 = zero_square;
  wave = zero_wave;
  noise = zero_noise;
  wave_ram = zeroed;
  frame_seq_timer = 0;
  frame_seq_step = 0;
  sample_acc = 0;
  out = some zeroed;
  out_cap = 2048;
  out_pos = 0;
})

abbrev pub init_cart : Cart
init_cart = record {
  rom = none;
  rom_size = 0;
  rom_banks = 0;
  ram = none;
  ram_size = 0;
  type = 0;
  ram_enabled = 0;
  bank1 = 0;
  bank2 = 0;
  mode = 0;
  rom_bank = 0;
  rtc_halt = 0;
  rtc_latch_state = 0;
  rtc_latched_valid = 0;
  rtc = zeroed;
  rtc_latched = zeroed;
  rtc_divider = 0;
  mbc2_ram = zeroed;
}

-- The machine before its power-on: the parts that `power_on` overwrites stand for what `calloc`
-- cleared.
abbrev pub cleared_machine : Mgbx
cleared_machine = record {
  cpu = cpu_reset;
  mem = record {
    wram = zeroed;
    hram = zeroed;
    ie = 0;
    if_reg = 0;
    sb = 0;
    sc = 0;
    oam_dma_page = 0;
    dma_active = 0;
    dma_value = 0;
    dma_index = 0;
  };
  cart = init_cart;
  ppu = init_ppu;
  timer = timer_reset;
  joypad = record { select = 0; p1 = 0; buttons = 0 };
  apu = init_apu;
  total_cycles = 0;
}

-- `mgbx_create`: whether `out` is a pointer, and whether `calloc` succeeds, are arguments.
unfoldable pub create : Bool → Bool → EmuResult × Option Mgbx
create out calloc =
    if not out
    then (einval, none)
    else if not calloc
    then (einval, none)
    else (ok, some (power_on cleared_machine))

-- `mgbx_load_rom`; `none` is a NULL `data`.
module _ (rom_malloc ram_malloc : Bool) where
  unfoldable pub load_rom : Mgbx → Option Bytes → ℕ → EmuResult × Mgbx
  load_rom gb none size = (einval, gb)
  load_rom gb (some bytes) size =
      if size == 0
      then (einval, gb)
      else let (r, cart) = cart_load rom_malloc ram_malloc gb.cart bytes size in
        let gb' : Mgbx = record gb { cart = cart } in (r, elim r [ ok ↦ power_on gb' | _ ↦ gb' ])

-- One round of the loop: the cycles of the CPU, and every device by as many.
unfoldable pub frame_round : Mgbx → Option (ℕ × Mgbx)
frame_round gb = do
  (t, gb1) ← cpu_step gb
  gb2 ← ppu_step gb1 t
  let gb3 = timer_step gb2 t
  let gb4 : Mgbx = record gb3 { apu = apu_step gb3.apu t }
  some (t, record gb4 { cart = tick_rtc gb4.cart t })

abbrev pub cycles_per_frame : ℕ
cycles_per_frame = 70224

-- How a loop ends: at its end, at an access outside of an array, or not within the fuel.
pub data Run {ℓ} (A : Type ℓ) : Type ℓ where
  done : A → Run A
  outside out_of_fuel : Run A

-- `while (acc < GB_CYCLES_PER_FRAME)`, with the number of rounds allowed.
unfoldable pub frame_loop : ℕ → ℕ → Mgbx → Run (ℕ × Mgbx)
frame_loop zero acc gb = if ltb acc cycles_per_frame then out_of_fuel else done (acc, gb)
frame_loop (suc fuel) acc gb = elim (ltb acc cycles_per_frame) [
  | false ↦ done (acc, gb)
  | true ↦ elim (frame_round gb) [
    | none ↦ outside
    | some (t, gb') ↦ frame_loop fuel (u32 (acc + t)) gb'
  ]
]

-- A round takes at least 4 cycles.
abbrev pub frame_fuel : ℕ
frame_fuel = 17556

-- After the loop: the samples go to the callback, when one is registered.
unfoldable pub end_frame : Bool → Run (ℕ × Mgbx) → Run (EmuResult × ℕ × Mgbx)
end_frame audio_cb outside = outside
end_frame audio_cb out_of_fuel = out_of_fuel
end_frame audio_cb (done (acc, gb)) = done (
    if audio_cb && ltb 0 gb.apu.out_pos
    then (ok, gb.apu.out_pos, record gb { apu = record (gb.apu) { out_pos = 0 } })
    else (ok, 0, gb))

-- `mgbx_run_frame`: the result, the number of samples that the callback is given (0 when it is not
-- called), and the machine. Whether a callback is registered is an argument.
unfoldable pub run_frame : Bool → Mgbx → Run (EmuResult × ℕ × Mgbx)
run_frame audio_cb gb = elim gb.cart.rom [
  | none ↦ done (enorom, 0, gb)
  | some rom ↦ end_frame audio_cb (frame_loop frame_fuel 0 gb)
]
