-- ===== src/Mgbx/Lifecycle/Load.antt =====
-- What power-on, creation and loading leave.
use mathlib.Core.Path.{subst}
use aarch.Prelude.{
  branches, ℕ, ◌*◌, ◌≤◌, ◌<◌, ◌≡◌, refl, ap, arith, ◌==◌, Bool, Option, none, some, Bytes, IsBytes,
  zeroed,
}
use aarch.Common.Result.{
  EmuResult, ok, einval, enorom, eunsupported, enospace, ebadstate, ebadrom, enotimpl,
}
use aarch.Mgbx.State.{Mgbx, Cart}
use aarch.Mgbx.Cart.{rom_at}
use aarch.Mgbx.Cart.Bounds.{IsValid as CartIsValid}
use aarch.Mgbx.Cart.Load.{cart_reset, banks_from_code}
use aarch.Mgbx.Cart.Load.Laws.{IsEmpty, Outcome, cart_load-Outcome}
use aarch.Mgbx.Ppu.{ppu_reset}
use aarch.Mgbx.Apu.{apu_reset}
use aarch.Mgbx.Timer.{timer_reset}
use aarch.Mgbx.Machine.Valid.{IsValid}
use aarch.Mgbx.Lifecycle.{power_on, load_rom}

reset_ram :
    (o : Option Bytes) (ram : Bytes)
    → elim o [ none ↦ none | some r ↦ some zeroed ] ≡ some ram
    → IsBytes ram
reset_ram none ram k = cc
reset_ram (some r) ram k =
    subst IsBytes (ap (λ (o : Option Bytes). elim o [ none ↦ zeroed | some x ↦ x ]) k)
      (λ i. omega arith)

cart_reset-IsValid : {cart : Cart} → CartIsValid cart → CartIsValid (cart_reset cart)
unfolding cart_reset
cart_reset-IsValid {cart} v = record {
  image = v.image;
  rom = v.rom;
  image_bytes = v.image_bytes;
  banks = v.banks;
  rom_size = v.rom_size;
  ram_bytes = λ ram k. reset_ram cart.ram ram k;
  rtc_bytes = λ i. omega arith;
  latched_bytes = λ i. omega arith;
  mbc2_bytes = λ i. omega arith;
  bank1 = omega arith;
  bank2 = omega arith;
  rom_bank = omega arith;
}

-- Power-on, from any state of the machine with a loaded cartridge, leaves a valid machine.
pub power_on-IsValid : (gb : Mgbx) → CartIsValid gb.cart → IsValid (power_on gb)
unfolding power_on ppu_reset apu_reset timer_reset
power_on-IsValid gb v = record {
  cart = cart_reset-IsValid v;
  ppu = record { vram = λ i. omega arith; oam = λ i. omega arith; registers = omega arith };
  mem = record { wram = λ i. omega arith; hram = λ i. omega arith; registers = ground arith };
  timer = omega arith;
  apu = record { wave_ram = λ i. omega arith; mixer = omega arith };
  cpu = omega arith;
}

-- EMU_OK comes with a valid machine that holds the banks of the image that the header names; an
-- error comes with a machine in which the cartridge alone has changed, to an empty one.
abbrev pub LoadOutcome : Mgbx → Bytes → ℕ → EmuResult × Mgbx → Type 0
LoadOutcome gb bytes size p = elim p.0 [
  | ok ↦
      (n : ℕ) × (banks_from_code (bytes 0x148) ≡ some n)
      × (n * 0x4000 ≤ size)
      × ((i : ℕ) → i < n * 0x4000 → rom_at p.1.cart i ≡ some (bytes i))
      × IsValid p.1
  | _ ↦ IsEmpty p.1.cart × (p.1 ≡ record gb { cart = p.1.cart })
]

powered :
    (gb : Mgbx) (bytes : Bytes) (size : ℕ) (p : EmuResult × Cart)
    → Outcome bytes size p
    → LoadOutcome gb bytes size
        (p.0, elim p.0 [ ok ↦ power_on (record gb { cart = p.1 }) | _ ↦ record gb { cart = p.1 } ])
unfolding rom_at power_on cart_reset
powered gb bytes size (ok, cart) (n, code, fits, held) =
    (n, code, fits, held.image, power_on-IsValid (record gb { cart = cart }) held.valid)
powered gb bytes size (einval, cart) h = (h, refl)
powered gb bytes size (enorom, cart) h = (h, refl)
powered gb bytes size (eunsupported, cart) h = (h, refl)
powered gb bytes size (enospace, cart) h = (h, refl)
powered gb bytes size (ebadstate, cart) h = (h, refl)
powered gb bytes size (ebadrom, cart) h = (h, refl)
powered gb bytes size (enotimpl, cart) h = (h, refl)

-- Loading bytes, at least one, with any outcome of the two allocations, ends in EMU_OK with a valid
-- machine whose ROM reads the data's banks, as many as its header names; or in an error, with an
-- empty cartridge and the rest of the machine as it was.
pub load_rom-LoadOutcome :
    (rom_malloc ram_malloc : Bool) (gb : Mgbx) (bytes : Bytes) (size : ℕ)
    → IsBytes bytes
    → 0 < size
    → LoadOutcome gb bytes size (load_rom rom_malloc ram_malloc gb (some bytes) size)
unfolding load_rom
load_rom-LoadOutcome rom_malloc ram_malloc gb bytes size h some_data =
    branches (LoadOutcome gb bytes size) (size == 0) (λ t. absurd (ground arith))
      (λ _. powered gb bytes size _ (cart_load-Outcome rom_malloc ram_malloc bytes size gb.cart h))
