-- ===== src/Mgbx/Cart/Tests.antt =====
-- The cartridge at concrete states.
use mathlib.Core.Logic.{◌↔◌}
use aarch.Prelude.{inl, ◌+◌, ◌*◌, ◌≡◌, refl, arith, true, some, zeroed, update}
use aarch.Common.Result.{ok}
use aarch.Mgbx.State.{Cart}
use aarch.Mgbx.Fixtures.{mbc5_cart, image}
use aarch.Mgbx.Cart.{cart_read, cart_write, write_reg, rom_at, bank_index, bank_at, read_bankn}
use aarch.Mgbx.Cart.Bounds.{InByte, cart_read-InByte}
use aarch.Mgbx.Cart.Sample.{image-IsBytes, mbc5-IsValid}
use aarch.Mgbx.Cart.Stores.{Stored, cart_write-Stored}
use aarch.Mgbx.Cart.Banking.{bank_index-mod, cart_read-cart_write}
use aarch.Mgbx.Cart.Select.{mbc1_select, mbc5_select}
use aarch.Mgbx.Cart.Load.{cart_load}
use aarch.Mgbx.Cart.Load.Laws.{Outcome, cart_load-Outcome}
use aarch.Mgbx.Cart.Load.Accepts.{IsMapper, HoldsRom, cart_load_accepts}
use aarch.Mgbx.Cart.Clock.{tick_rtc}
use aarch.Mgbx.Cart.Clock.Count.{count, tick_rtc-count}

abbrev mbc1_cart : Cart
mbc1_cart = record mbc5_cart { type = 0x03; rom_banks = 64; rom_size = 64 * 0x4000 }

-- Bank 1 holds the bytes from 0x4000 on.
cart_read-InByte_example : InByte (cart_read mbc5_cart 0x4123)
cart_read-InByte_example = cart_read-InByte 0x4123 mbc5-IsValid

cart_read_bank1 : cart_read mbc5_cart 0x4123 ≡ some 0x23
unfolding cart_read read_bankn bank_at bank_index rom_at
cart_read_bank1 = refl

cart_write-Stored_example : Stored (cart_write mbc5_cart 0xa001 0x55)
cart_write-Stored_example = cart_write-Stored 0xa001 0x55 mbc5-IsValid (omega arith)

cart_load-Outcome_example : Outcome image 0x40000 (cart_load true true mbc5_cart image 0x40000)
cart_load-Outcome_example = cart_load-Outcome true true image 0x40000 mbc5_cart image-IsBytes

cart_load_accepts_example :
    ((cart_load true true mbc5_cart image 0x40001).0 ≡ ok)
    ↔ (IsMapper (image 0x147) × HoldsRom (image 0x148) 0x40001)
cart_load_accepts_example = cart_load_accepts mbc5_cart image 0x40001

image_accepted : (cart_load true true mbc5_cart image 0x40001).0 ≡ ok
image_accepted =
    (cart_load_accepts mbc5_cart image 0x40001).1 (omega arith, inl (omega arith, omega arith))

bank_index-mod_example : bank_index mbc5_cart 35 ≡ 3
bank_index-mod_example = bank_index-mod mbc5_cart 3 35 refl

cart_read-cart_write_example :
    (cart' : Cart) × (cart_write mbc5_cart 0xa001 0x55 ≡ some cart')
    × (cart_read cart' 0xa001 ≡ some 0x55)
cart_read-cart_write_example =
    cart_read-cart_write mbc5_cart 0xa001 0x55 (omega arith) refl refl (omega arith)

mbc1_select_example :
    cart_read (write_reg (write_reg mbc1_cart 0x2000 0x20) 0x4000 1) (0x4000 + 7)
    ≡ rom_at mbc1_cart (33 * 0x4000 + 7)
mbc1_select_example = mbc1_select mbc1_cart 5 0x20 1 7 refl refl (omega arith)

mbc5_select_example :
    cart_read (write_reg (write_reg mbc5_cart 0x2000 0x12) 0x3000 1) (0x4000 + 7)
    ≡ rom_at mbc5_cart (2 * 0x4000 + 7)
mbc5_select_example = mbc5_select mbc5_cart 3 0x12 1 7 refl refl (omega arith) (omega arith)

abbrev clocked : Cart
clocked = record mbc5_cart { rtc = update zeroed 0 59; rtc_divider = 4194300 }

-- The second after 59 is 60: the registers count in base 256.
tick_rtc-count_example :
    (count (tick_rtc clocked 24).rtc ≡ 60) × ((tick_rtc clocked 24).rtc_divider ≡ 20)
tick_rtc-count_example = tick_rtc-count clocked 24 (λ i. ground arith) (omega arith)
