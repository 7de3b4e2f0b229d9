-- ===== src/Mgbx/Cart/Select.antt =====
-- Selecting a ROM bank through the mapper's registers.
use aarch.Prelude.{
  ℕ, ◌+◌, ◌-◌, ◌*◌, ◌/◌, ◌%◌, ◌^◌, ◌<◌, ◌≡◌, refl, ap, ◌∙◌, arith, bit_and, bit_or, bit_and_mask,
  bit_and_high, bit_or_fields, bit_or_low, if◌then◌else◌, ◌==◌, true, some,
}
use aarch.Mgbx.State.{Cart}
use aarch.Mgbx.Cart.{rom_at, bank_at, read_bankn, mbc1_bank, cart_read, write_reg, is_mbc1, is_mbc5}
use aarch.Mgbx.Cart.Load.{banks_from_code}
use aarch.Mgbx.Cart.Banking.{bank_index-mod}

bank_at-mod :
    (cart : Cart) (code bank i : ℕ)
    → banks_from_code code ≡ some cart.rom_banks
    → bank_at cart bank i ≡ rom_at cart (bank % cart.rom_banks * 0x4000 + i)
unfolding bank_at
bank_at-mod cart code bank i e = rw (bank_index-mod cart code bank e)

-- The bank of MBC1: five low bits that are never 0, and two high bits.
mbc1_bank_lem :
    (cart : Cart)
    → mbc1_bank cart ≡ cart.bank2 % 4 * 32 + (if cart.bank1 % 32 == 0 then 1 else cart.bank1 % 32)
unfolding mbc1_bank
mbc1_bank_lem cart = ground (
  arith,
  bit_and_mask 2 cart.bank2,
  bit_and_mask 5 cart.bank1,
  bit_or_fields 5 (cart.bank2 % 4) (cart.bank1 % 32),
  bit_and_mask 5 (cart.bank2 % 4 * 32 + cart.bank1 % 32),
  bit_or_fields 5 (cart.bank2 % 4) 1,
)

read_mbc1 :
    (cart : Cart) (i : ℕ)
    → is_mbc1 cart.type ≡ true
    → i < 0x4000
    → cart_read cart (0x4000 + i) ≡ bank_at cart (mbc1_bank cart) i
unfolding cart_read read_bankn
read_mbc1 cart i kind small = let e : 0x4000 + i - 0x4000 ≡ i = omega arith in ground arith

read_mbc5 :
    (cart : Cart) (i : ℕ)
    → is_mbc5 cart.type ≡ true
    → i < 0x4000
    → cart_read cart (0x4000 + i) ≡ bank_at cart (bit_and cart.rom_bank 0x1ff) i
unfolding cart_read read_bankn
read_mbc5 cart i kind small = let e : 0x4000 + i - 0x4000 ≡ i = omega arith in ground arith

write_mbc1 :
    (cart : Cart) (low high : ℕ)
    → is_mbc1 cart.type ≡ true
    → write_reg (write_reg cart 0x2000 low) 0x4000 high ≡ record cart { bank1 = low; bank2 = high }
unfolding write_reg
write_mbc1 cart low high kind = ground arith

write_mbc5 :
    (cart : Cart) (low high : ℕ)
    → is_mbc5 cart.type ≡ true
    → low < 256
    → write_reg (write_reg cart 0x2000 low) 0x3000 high
      ≡ record cart { rom_bank = high % 2 * 256 + low }
unfolding write_reg
write_mbc5 cart low high kind small = ground (
  arith,
  bit_and_mask 1 high,
  bit_and_mask 8 (bit_or (bit_and cart.rom_bank 0x100) low),
  bit_and_high 8 cart.rom_bank 1,
  bit_or_fields 8 (bit_and (cart.rom_bank / 2 ^ 8) 1) low small,
  bit_or_low 8 (high % 2) low small,
)

-- On MBC1, writing `low` to 0x2000 and `high` to 0x4000 maps, at 0x4000, the bank with the five low
-- bits of `low`, 1 in place of 0, and the two low bits of `high` above them, modulo the bank count,
-- which is one that a header names.
pub mbc1_select :
    (cart : Cart) (code low high i : ℕ)
    → is_mbc1 cart.type ≡ true
    → banks_from_code code ≡ some cart.rom_banks
    → i < 0x4000
    → let cart' = write_reg (write_reg cart 0x2000 low) 0x4000 high in
      let bank = high % 4 * 32 + (if low % 32 == 0 then 1 else low % 32) in
      cart_read cart' (0x4000 + i) ≡ rom_at cart (bank % cart.rom_banks * 0x4000 + i)
unfolding rom_at
mbc1_select cart code low high i kind e small =
    let cart' : Cart = record cart { bank1 = low; bank2 = high } in
    ap (λ c. cart_read c (0x4000 + i)) (write_mbc1 cart low high kind)
    ∙ read_mbc1 cart' i kind small
    ∙ bank_at-mod cart' code (mbc1_bank cart') i e
    ∙ ap (λ (b : ℕ). rom_at cart (b % cart.rom_banks * 0x4000 + i)) (mbc1_bank_lem cart')

-- On MBC5, writing the byte `low` to 0x2000 and `high` to 0x3000 maps, at 0x4000, the bank of nine
-- bits with `low` below the low bit of `high`, bank 0 included, modulo the bank count, which is one
-- that a header names.
pub mbc5_select :
    (cart : Cart) (code low high i : ℕ)
    → is_mbc5 cart.type ≡ true
    → banks_from_code code ≡ some cart.rom_banks
    → low < 256
    → i < 0x4000
    → let cart' = write_reg (write_reg cart 0x2000 low) 0x3000 high in
      cart_read cart' (0x4000 + i)
      ≡ rom_at cart ((high % 2 * 256 + low) % cart.rom_banks * 0x4000 + i)
unfolding rom_at
mbc5_select cart code low high i kind e byte small =
    let cart' : Cart = record cart { rom_bank = high % 2 * 256 + low } in
    let nine : bit_and (high % 2 * 256 + low) 0x1ff ≡ high % 2 * 256 + low =
      omega (arith, bit_and_mask 9 (high % 2 * 256 + low)) in
    rw
      (
        write_mbc5 cart low high kind byte,
        read_mbc5 cart' i kind small,
        nine,
        bank_at-mod cart' code (high % 2 * 256 + low) i e,
      )
      refl
