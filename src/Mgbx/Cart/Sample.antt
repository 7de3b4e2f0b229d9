-- ===== src/Mgbx/Cart/Sample.antt =====
-- The cartridge of the fixtures is a valid one.
use aarch.Prelude.{refl, ap, arith, Option, none, some, Bytes, IsBytes, zeroed}
use mathlib.Core.Path.{subst}
use aarch.Mgbx.Fixtures.{image, mbc5_cart}
use aarch.Mgbx.Cart.Bounds.{IsValid}

pub image-IsBytes : IsBytes image
image-IsBytes i = ground arith

pub mbc5-IsValid : IsValid mbc5_cart
mbc5-IsValid = record {
  image = image;
  rom = refl;
  image_bytes = image-IsBytes;
  banks = omega arith;
  rom_size = refl;
  ram_bytes = λ ram e.
      subst IsBytes (ap (λ (o : Option Bytes). elim o [ none ↦ zeroed | some r ↦ r ]) e)
        (λ i. omega arith);
  rtc_bytes = λ i. omega arith;
  latched_bytes = λ i. omega arith;
  mbc2_bytes = λ i. omega arith;
  bank1 = omega arith;
  bank2 = omega arith;
  rom_bank = omega arith;
}
