-- ===== src/Mgbx/Cart.antt =====
-- src/mgbx/cart.c: the mappers' register file, ROM and RAM banking, and the clock of MBC3.
pub mod Bounds
pub mod Sample
pub mod Stores
pub mod Banking
pub mod Select
pub mod Load
mod Tests
pub mod Clock
use aarch.Prelude.{
  ℕ, zero, suc, ◌+◌, ◌-◌, ◌*◌, ◌/◌, ◌%◌, ◌^◌, bit_and, bit_or, u8, u16, u32, u64, ◌<<<◌, nonzero,
  ◌==◌, ltb, leb, of_bool, if◌then◌else◌, ◌&&◌, ◌||◌, not, Bool, Option, none, some, Bytes, zeroed,
  update, load, store,
}
use mathlib.Core.Option
use aarch.Mgbx.State.{Cart}

-- The cartridge types of the header byte 0x147.
abbrev pub rom_only : ℕ
rom_only = 0x00

abbrev pub is_mbc1 : ℕ → Bool
is_mbc1 t = t == 0x01 || (t == 0x02 || t == 0x03)

abbrev pub is_mbc2 : ℕ → Bool
is_mbc2 t = t == 0x05 || t == 0x06

abbrev pub is_mbc3 : ℕ → Bool
is_mbc3 t = t == 0x0f || (t == 0x10 || (t == 0x11 || (t == 0x12 || t == 0x13)))

-- The types 0x19 to 0x1e.
abbrev pub is_mbc5 : ℕ → Bool
is_mbc5 t = leb 0x19 t && leb t 0x1e

-- A read through `rom`; `none` is a NULL pointer or an offset outside of the image.
unfoldable pub rom_at : Cart → ℕ → Option ℕ
rom_at cart i = elim cart.rom [ none ↦ none | some rom ↦ load rom cart.rom_size i ]

-- The bank that `rom_bank_ptr` points to. `rom_bank_mask` is `rom_banks - 1u`.
unfoldable pub bank_index : Cart → ℕ → ℕ
bank_index cart bank =
    let nb = cart.rom_banks in
    if nb == 72 || (nb == 80 || nb == 96) then bank % nb else bit_and bank (u32 (nb + 2 ^ 32 - 1))

-- `rom_bank_ptr(cart, bank)[i]`.
unfoldable pub bank_at : Cart → ℕ → ℕ → Option ℕ
bank_at cart bank i = rom_at cart (bank_index cart bank * 0x4000 + i)

-- 0x0000-0x3fff
unfoldable pub read_bank0 : Cart → ℕ → Option ℕ
read_bank0 cart addr =
    if is_mbc1 cart.type && (cart.mode == 1 && ltb 32 cart.rom_banks)
    then bank_at cart (cart.bank2 <<< 5) addr
    else rom_at cart addr

-- The bank at 0x4000-0x7fff of a mapper.
unfoldable pub mbc1_bank : Cart → ℕ
mbc1_bank cart =
    let bank = bit_or (bit_and cart.bank2 3 <<< 5) (bit_and cart.bank1 0x1f) in
    if bit_and bank 0x1f == 0 then bit_or bank 1 else bank

unfoldable pub read_bankn : Cart → ℕ → Option ℕ
read_bankn cart addr =
    let i = addr - 0x4000 in
    if cart.type == rom_only
    then rom_at cart addr
    else if is_mbc1 cart.type
    then bank_at cart (mbc1_bank cart) i
    else if is_mbc2 cart.type
    then bank_at cart (let b = bit_and cart.bank1 0x0f in if b == 0 then 1 else b) i
    else if is_mbc3 cart.type
    then bank_at cart (let b = bit_and cart.bank1 0x7f in if b == 0 then 1 else b) i
    else if is_mbc5 cart.type
    then bank_at cart (bit_and cart.rom_bank 0x1ff) i
    else some 0xff

-- `(size_t)bank * 0x2000u + (addr - 0xA000u)`.
abbrev pub ram_offset : ℕ → ℕ → ℕ
ram_offset bank addr = u64 (bank * 0x2000 + u32 (addr + 2 ^ 32 - 0xa000))

abbrev pub clock_selected : Cart → Bool
clock_selected cart = is_mbc3 cart.type && (leb 0x08 cart.bank2 && leb cart.bank2 0x0c)

abbrev pub mbc1_ram_bank : Cart → ℕ
mbc1_ram_bank cart = if cart.mode == 1 then bit_and cart.bank2 3 else 0

abbrev read_ram_bank : Cart → ℕ
read_ram_bank cart =
    if is_mbc1 cart.type
    then mbc1_ram_bank cart
    else if is_mbc3 cart.type
    then bit_and cart.bank2 3
    else if is_mbc5 cart.type
    then bit_and cart.bank2 0x0f
    else 0

abbrev write_ram_bank : Cart → ℕ
write_ram_bank cart =
    if is_mbc1 cart.type
    then mbc1_ram_bank cart
    else if is_mbc3 cart.type
    then bit_and cart.bank2 3
    else if leb 0x19 cart.type
    then bit_and cart.bank2 0x0f
    else 0

-- The RAM, if it is enabled and there.
abbrev pub open_ram : Cart → Option Bytes
open_ram cart = elim cart.ram [
  | none ↦ none
  | some ram ↦ if not (nonzero cart.ram_enabled) || cart.ram_size == 0 then none else some ram
]

-- 0xa000-0xbfff
unfoldable pub read_ram : Cart → ℕ → Option ℕ
read_ram cart addr =
    if clock_selected cart
    then (if nonzero cart.rtc_latched_valid
        then load cart.rtc_latched 5 (cart.bank2 - 0x08)
        else load cart.rtc 5 (cart.bank2 - 0x08))
    else if is_mbc2 cart.type
    then Option.map (λ v. bit_or 0xf0 (bit_and v 0x0f))
        (load cart.mbc2_ram 512 (bit_and addr 0x1ff))
    else elim (open_ram cart) [
      | none ↦ some 0xff
      | some ram ↦
          if leb cart.ram_size (ram_offset (read_ram_bank cart) addr)
          then some 0xff
          else load ram cart.ram_size (ram_offset (read_ram_bank cart) addr)
    ]

-- `gb_cart_read`
unfoldable pub cart_read : Cart → ℕ → Option ℕ
cart_read cart addr =
    if ltb addr 0x8000
    then (if ltb addr 0x4000 then read_bank0 cart addr else read_bankn cart addr)
    else read_ram cart addr

-- The writes to 0x0000-0x7fff, the mapper's registers.
unfoldable pub write_reg : Cart → ℕ → ℕ → Cart
write_reg cart addr v =
    if ltb addr 0x2000
    then (if is_mbc2 cart.type
        then (if bit_and addr 0x0100 == 0
            then record cart { ram_enabled = of_bool (bit_and v 0x0f == 0x0a) }
            else cart)
        else record cart { ram_enabled = of_bool (bit_and v 0x0f == 0x0a) })
    else if ltb addr 0x4000
    then (if is_mbc2 cart.type
        then (if nonzero (bit_and addr 0x0100)
            then record cart { bank1 = bit_and v 0x0f }
            else cart)
        else if is_mbc5 cart.type
        then (if ltb addr 0x3000
            then record cart { rom_bank = bit_or (bit_and cart.rom_bank 0x100) v }
            else record cart { rom_bank = bit_or (bit_and cart.rom_bank 0xff) (bit_and v 1 <<< 8) })
        else record cart { bank1 = v })
    else if ltb addr 0x6000
    then (if is_mbc5 cart.type
        then record cart { bank2 = bit_and v 0x0f }
        else record cart { bank2 = v })
    else if is_mbc1 cart.type
    then record cart { mode = bit_and v 1 }
    else if is_mbc3 cart.type
    then (if v == 0x00
        then record cart { rtc_latch_state = 1 }
        else if v == 0x01 && cart.rtc_latch_state == 1
        then record cart { rtc_latched = cart.rtc; rtc_latched_valid = 1; rtc_latch_state = 0 }
        else cart)
    else cart

-- A write to the selected register of the clock; `none` is a store outside of an array.
unfoldable pub write_clock : Cart → ℕ → Option Cart
write_clock cart v =
    let r = cart.bank2 - 0x08 in
    if r == 4
    then Option.map
        (λ rtc. record cart { rtc = rtc; rtc_halt = of_bool (nonzero (bit_and v 0x40)) })
        (store cart.rtc 5 4 (bit_and v 0xc1))
    else Option.map (λ rtc. record cart { rtc = rtc }) (store cart.rtc 5 r v)

unfoldable pub write_mbc2 : Cart → ℕ → ℕ → Option Cart
write_mbc2 cart addr v =
    if nonzero cart.ram_enabled
    then Option.map (λ ram. record cart { mbc2_ram = ram })
        (store cart.mbc2_ram 512 (bit_and addr 0x1ff) (bit_and v 0x0f))
    else some cart

unfoldable pub write_banked : Cart → ℕ → ℕ → Option Cart
write_banked cart addr v = elim (open_ram cart) [
  | none ↦ some cart
  | some ram ↦
      let offset = ram_offset (write_ram_bank cart) addr in
      if ltb offset cart.ram_size
      then Option.map (λ ram'. record cart { ram = some ram' }) (store ram cart.ram_size offset v)
      else some cart
]

-- The writes to 0xa000-0xbfff.
unfoldable pub write_ram : Cart → ℕ → ℕ → Option Cart
write_ram cart addr v =
    if clock_selected cart
    then write_clock cart v
    else if is_mbc2 cart.type
    then write_mbc2 cart addr v
    else write_banked cart addr v

-- `gb_cart_write`
unfoldable pub cart_write : Cart → ℕ → ℕ → Option Cart
cart_write cart addr v =
    if ltb addr 0x8000 then some (write_reg cart addr v) else write_ram cart addr v
