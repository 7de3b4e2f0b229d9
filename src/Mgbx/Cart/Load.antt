-- ===== src/Mgbx/Cart/Load.antt =====
-- Loading and resetting a cartridge. Whether each `malloc` succeeds is an argument.
pub mod Laws
pub mod Accepts
use aarch.Prelude.{
  ℕ, ◌+◌, ◌*◌, ◌^◌, ◌<<<◌, ◌==◌, ltb, leb, if◌then◌else◌, ◌&&◌, ◌||◌, not, Bool, true, false,
  Option, none, some, Bytes, zeroed, List, [], ◌∷◌,
}
use aarch.Common.Result.{EmuResult, ok, einval, eunsupported, ebadrom}
use aarch.Mgbx.State.{Cart}
use aarch.Mgbx.Cart.{is_mbc2}

abbrev supported_types : List ℕ
supported_types =
    0x00 ∷ 0x01 ∷ 0x02 ∷ 0x03 ∷ 0x05 ∷ 0x06 ∷ 0x0f ∷ 0x10 ∷ 0x11 ∷ 0x12 ∷ 0x13 ∷ 0x19 ∷ 0x1a ∷ 0x1b
    ∷ 0x1c ∷ 0x1d ∷ 0x1e ∷ []

abbrev one_of : List ℕ → ℕ → Bool
one_of [] t = false
one_of (x ∷ xs) t = x == t || one_of xs t

abbrev pub type_supported : ℕ → Bool
type_supported t = one_of supported_types t

abbrev pub ram_size_from_code : ℕ → ℕ → ℕ
ram_size_from_code code type =
    if is_mbc2 type
    then 512
    else if code == 1
    then 2048
    else if code == 2
    then 8192
    else if code == 3
    then 32768
    else if code == 4
    then 131072
    else if code == 5
    then 65536
    else 0

-- The number of 16 KiB banks of a ROM size code.
abbrev pub banks_from_code : ℕ → Option ℕ
banks_from_code code =
    if leb code 8
    then some (2 <<< code)
    else if code == 0x52
    then some 72
    else if code == 0x53
    then some 80
    else if code == 0x54
    then some 96
    else none

abbrev has_ram_pin : ℕ → Bool
has_ram_pin t =
    (t == 0x02 || t == 0x03)
    || ((t == 0x12 || t == 0x13)
        || (t == 0x10 || ((t == 0x1a || t == 0x1b) || (t == 0x1d || t == 0x1e))))

-- `ram_size` of a new cartridge.
abbrev pub ram_size_of : ℕ → ℕ → ℕ
ram_size_of code type =
    let size = ram_size_from_code code type in if has_ram_pin type && size == 0 then 8192 else size

unfoldable pub cart_free : Cart → Cart
cart_free cart = record cart { rom = none; ram = none; rom_size = 0; ram_size = 0 }

unfoldable pub cart_reset : Cart → Cart
cart_reset cart = record cart {
  ram_enabled = 0;
  bank1 = 1;
  bank2 = 0;
  mode = 0;
  rom_bank = 1;
  rtc_halt = 0;
  rtc_latch_state = 0;
  rtc_latched_valid = 0;
  rtc = zeroed;
  rtc_latched = zeroed;
  rtc_divider = 0;
  ram = elim cart.ram [ none ↦ none | some ram ↦ some zeroed ];
  mbc2_ram = zeroed;
}

module _ (rom_malloc ram_malloc : Bool) where
  -- The RAM of a cartridge whose ROM is in place.
  unfoldable pub load_ram : Cart → ℕ → EmuResult × Cart
  load_ram cart size =
      if ltb 0 size
      then (if ram_malloc
          then (ok, cart_reset (record cart { ram_size = size; ram = some zeroed }))
          else (einval, cart_free (record cart { ram_size = size })))
      else (ok, cart_reset (record cart { ram_size = size }))

  unfoldable pub load_banks : Cart → Bytes → ℕ → ℕ → EmuResult × Cart
  load_banks cart bytes size banks =
      let want = banks * 0x4000 in
      if ltb size want
      then (ebadrom, cart)
      else if not rom_malloc
      then (einval, cart)
      else load_ram
          (record cart { rom = some bytes; rom_size = want; rom_banks = banks; type = bytes 0x147 })
          (ram_size_of (bytes 0x149) (bytes 0x147))

  -- `gb_cart_load`. The first `size` bytes of the image are copied.
  unfoldable pub cart_load : Cart → Bytes → ℕ → EmuResult × Cart
  cart_load cart bytes size =
      let fresh = cart_free cart in
      if ltb size 0x150
      then (ebadrom, fresh)
      else if not (type_supported (bytes 0x147))
      then (eunsupported, fresh)
      else elim (banks_from_code (bytes 0x148)) [
        | none ↦ (ebadrom, fresh)
        | some banks ↦ load_banks fresh bytes size banks
      ]
