-- ===== src/Mgbx/Cart/Bounds.antt =====
-- Memory safety of the cartridge: no access leaves its array, and a read gives a byte.
use aarch.Prelude.{
  ℕ, ◌+◌, ◌-◌, ◌*◌, ◌^◌, ◌≤◌, ◌<◌, ◌≡◌, refl, arith, bit_and, bit_or, bit_and-le_right,
  bit_or-lt_pow, u32, ◌<<<◌, if◌then◌else◌, ◌==◌, leb, Option, none, some, Bytes, IsBytes, load,
}
use aarch.Mgbx.State.{Cart}
use aarch.Mgbx.Cart.{
  rom_at, bank_index, bank_at, read_bank0, read_bankn, mbc1_bank, read_ram, cart_read, open_ram,
  ram_offset, read_ram_bank,
}

-- A loaded cartridge: the image holds its banks, and every register is a value that its bits can
-- hold.
pub record IsValid (cart : Cart) : Type 0 where
  pub image : Bytes
  pub rom : cart.rom ≡ some image
  pub image_bytes : IsBytes image
  pub banks : (2 ≤ cart.rom_banks) × (cart.rom_banks ≤ 512)
  pub rom_size : cart.rom_size ≡ cart.rom_banks * 0x4000
  pub ram_bytes : (ram : Bytes) → cart.ram ≡ some ram → IsBytes ram
  pub rtc_bytes : IsBytes cart.rtc
  pub latched_bytes : IsBytes cart.rtc_latched
  pub mbc2_bytes : IsBytes cart.mbc2_ram
  pub bank1 : cart.bank1 < 256
  pub bank2 : cart.bank2 < 256
  pub rom_bank : cart.rom_bank < 512

-- The byte that was read.
abbrev pub byte_of : Option ℕ → ℕ
byte_of none = 0
byte_of (some v) = v

-- The access stays in its array and gives a byte.
abbrev pub InByte : Option ℕ → Type 0
InByte o = (o ≡ some (byte_of o)) × (byte_of o < 256)

load-InByte : (b : Bytes) (size i : ℕ) → IsBytes b → i < size → InByte (load b size i)
load-InByte b size i h small = ground (arith, h i)

rom_at-InByte : {cart : Cart} (i : ℕ) → IsValid cart → i < cart.rom_size → InByte (rom_at cart i)
unfolding rom_at
rom_at-InByte {cart} i v small = rw v.rom (load-InByte v.image cart.rom_size i v.image_bytes small)

bank_index-lt : {cart : Cart} (bank : ℕ) → IsValid cart → bank_index cart bank < cart.rom_banks
unfolding bank_index
bank_index-lt {cart} bank v =
    ground (arith, v.banks, bit_and-le_right bank (u32 (cart.rom_banks + 2 ^ 32 - 1)))

bank_at-InByte :
    {cart : Cart} (bank i : ℕ) → IsValid cart → i < 0x4000 → InByte (bank_at cart bank i)
unfolding bank_at
bank_at-InByte bank i v small = rom_at-InByte _ v (omega (arith, bank_index-lt bank v, v.rom_size))

read_bank0-InByte :
    {cart : Cart} (addr : ℕ) → IsValid cart → addr < 0x4000 → InByte (read_bank0 cart addr)
unfolding read_bank0
read_bank0-InByte {cart} addr v small = ground (
  arith,
  bank_at-InByte (cart.bank2 <<< 5) addr v small,
  rom_at-InByte addr v (omega (arith, v.rom_size, v.banks)),
)

read_bankn-InByte :
    {cart : Cart} (addr : ℕ)
    → IsValid cart
    → 0x4000 ≤ addr
    → addr < 0x8000
    → InByte (read_bankn cart addr)
unfolding read_bankn
read_bankn-InByte {cart} addr v low high =
    let bank : (n : ℕ) → InByte (bank_at cart n (addr - 0x4000)) =
      λ n. bank_at-InByte n (addr - 0x4000) v (omega arith) in
    let mbc2 = bit_and cart.bank1 0x0f in
    let mbc3 = bit_and cart.bank1 0x7f in
    ground (
      arith,
      rom_at-InByte addr v (omega (arith, v.rom_size, v.banks)),
      bank (mbc1_bank cart),
      bank (if mbc2 == 0 then 1 else mbc2),
      bank (if mbc3 == 0 then 1 else mbc3),
      bank (bit_and cart.rom_bank 0x1ff),
    )

mbc2-lt : (x : ℕ) → bit_or 0xf0 (bit_and x 0x0f) < 256
mbc2-lt x =
    bit_or-lt_pow 8 0xf0 (bit_and x 0x0f) (omega arith) (omega (arith, bit_and-le_right x 0x0f))

ram-InByte :
    (o : Option Bytes) (size offset : ℕ)
    → ((ram : Bytes) → o ≡ some ram → IsBytes ram)
    → InByte (elim o [
      | none ↦ some 0xff
      | some ram ↦ if leb size offset then some 0xff else load ram size offset
    ])
ram-InByte none size offset h = (refl, omega arith)
ram-InByte (some ram) size offset h = ground (arith, h ram refl offset)

read_ram-InByte : {cart : Cart} (addr : ℕ) → IsValid cart → InByte (read_ram cart addr)
unfolding read_ram
read_ram-InByte {cart} addr v = ground (
  arith,
  v.latched_bytes (cart.bank2 - 0x08),
  v.rtc_bytes (cart.bank2 - 0x08),
  mbc2-lt (cart.mbc2_ram (bit_and addr 0x1ff)),
  bit_and-le_right addr 0x1ff,
  ram-InByte (open_ram cart) cart.ram_size (ram_offset (read_ram_bank cart) addr)
      (λ ram e. v.ram_bytes ram (ground arith)),
)

-- On a loaded cartridge every read, at any address, stays in its array and gives a byte.
pub cart_read-InByte : {cart : Cart} (addr : ℕ) → IsValid cart → InByte (cart_read cart addr)
unfolding cart_read
cart_read-InByte addr v =
    ground (arith, read_bank0-InByte addr v, read_bankn-InByte addr v, read_ram-InByte addr v)
