-- ===== src/Mgbx/Cart/Banking.antt =====
-- Which byte a read gives: banks are taken modulo the bank count, and RAM keeps what was stored.
use aarch.Prelude.{
  ℕ, zero, suc, ◌%◌, ◌≤◌, ◌<◌, ◌≡◌, arith, bit_and_mask, leb, ◌&&◌, Bool, not, true, some, Bytes,
  update,
}
use aarch.Mgbx.State.{Cart}
use aarch.Mgbx.Cart.{
  bank_index, read_ram, cart_read, write_ram, cart_write, write_banked, open_ram, is_mbc2,
  clock_selected, ram_offset, write_ram_bank,
}
use aarch.Mgbx.Cart.Load.{banks_from_code}

-- The bank that `rom_bank_ptr` takes is the bank number modulo the bank count, for every bank count
-- that a header can name.
pub bank_index-mod :
    (cart : Cart) (code bank : ℕ)
    → banks_from_code code ≡ some cart.rom_banks
    → bank_index cart bank ≡ bank % cart.rom_banks
unfolding bank_index
bank_index-mod cart zero bank e = ground (arith, bit_and_mask 1 bank)
bank_index-mod cart (suc zero) bank e = ground (arith, bit_and_mask 2 bank)
bank_index-mod cart (suc (suc zero)) bank e = ground (arith, bit_and_mask 3 bank)
bank_index-mod cart (suc (suc (suc zero))) bank e = ground (arith, bit_and_mask 4 bank)
bank_index-mod cart (suc (suc (suc (suc zero)))) bank e = ground (arith, bit_and_mask 5 bank)
bank_index-mod cart (suc (suc (suc (suc (suc zero))))) bank e = ground (arith, bit_and_mask 6 bank)
bank_index-mod cart (suc (suc (suc (suc (suc (suc zero)))))) bank e =
    ground (arith, bit_and_mask 7 bank)
bank_index-mod cart (suc (suc (suc (suc (suc (suc (suc zero))))))) bank e =
    ground (arith, bit_and_mask 8 bank)
bank_index-mod cart (suc (suc (suc (suc (suc (suc (suc (suc zero)))))))) bank e =
    ground (arith, bit_and_mask 9 bank)
bank_index-mod cart (suc (suc (suc (suc (suc (suc (suc (suc (suc n))))))))) bank e = ground arith

-- The mappers with banked RAM.
abbrev pub banked_ram : Cart → Bool
banked_ram cart = not (clock_selected cart) && (not (is_mbc2 cart.type) && leb cart.type 0x1e)

-- What a write to enabled RAM stores is read back at the same address, on every mapper with banked
-- RAM and whatever bank is selected, where the offset in the RAM is below its size.
pub cart_read-cart_write :
    (cart : Cart) (addr x : ℕ) {ram : Bytes}
    → 0x8000 ≤ addr
    → banked_ram cart ≡ true
    → open_ram cart ≡ some ram
    → ram_offset (write_ram_bank cart) addr < cart.ram_size
    → (cart' : Cart) × (cart_write cart addr x ≡ some cart') × (cart_read cart' addr ≡ some x)
unfolding cart_write write_ram write_banked cart_read read_ram
cart_read-cart_write cart addr x {ram} high kind opened fits = (
  record cart { ram = some (update ram (ram_offset (write_ram_bank cart) addr) x) },
  ground arith,
  ground arith,
)
