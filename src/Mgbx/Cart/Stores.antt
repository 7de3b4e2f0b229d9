-- ===== src/Mgbx/Cart/Stores.antt =====
-- The writes of the cartridge keep it valid, and no store leaves its array.
use mathlib.Core.Option
use mathlib.Core.Path.{subst}
use aarch.Prelude.{
  store_lem, ℕ, ◌-◌, ◌*◌, ◌^◌, ◌<◌, ◌≡◌, refl, ap, arith, bit_and, bit_and-le_left,
  bit_and-le_right, bit_or-lt_pow, nonzero, if◌then◌else◌, ◌==◌, ltb, Bool, true, false, ltb→lt,
  Option, none, some, Bytes, IsBytes, store, update, update-IsBytes,
}
use aarch.Mgbx.State.{Cart}
use aarch.Mgbx.Cart.{
  write_reg, write_ram, cart_write, write_clock, write_mbc2, write_banked, open_ram, is_mbc2,
  clock_selected, ram_offset, write_ram_bank,
}
use aarch.Mgbx.Cart.Bounds.{IsValid}

write_reg-IsValid :
    {cart : Cart} (addr x : ℕ) → IsValid cart → x < 256 → IsValid (write_reg cart addr x)
unfolding write_reg
write_reg-IsValid {cart} addr x v small = record {
  image = v.image;
  rom = ground (arith, v.rom);
  image_bytes = v.image_bytes;
  banks = ground (arith, v.banks);
  rom_size = ground (arith, v.rom_size);
  ram_bytes = λ ram e. v.ram_bytes ram (ground arith);
  rtc_bytes = λ i. ground (arith, v.rtc_bytes i);
  latched_bytes = λ i. ground (arith, v.rtc_bytes i, v.latched_bytes i);
  mbc2_bytes = λ i. ground (arith, v.mbc2_bytes i);
  bank1 = ground (arith, v.bank1, bit_and-le_left x 0x0f);
  bank2 = ground (arith, v.bank2, bit_and-le_left x 0x0f);
  rom_bank = ground (
    arith,
    v.rom_bank,
    bit_or-lt_pow 9 (bit_and cart.rom_bank 0x100) x,
    bit_and-le_right cart.rom_bank 0x100,
    bit_or-lt_pow 9 (bit_and cart.rom_bank 0xff) (bit_and x 1 * 2 ^ 8),
    bit_and-le_right cart.rom_bank 0xff,
    bit_and-le_right x 1,
  );
}

-- The store stays in its array and leaves a valid cartridge.
abbrev pub Stored : Option Cart → Type 0
Stored o = (cart : Cart) × (o ≡ some cart) × IsValid cart

Stored-if :
    (b : Bool) (x y : Option Cart)
    → (b ≡ true → Stored x)
    → (b ≡ false → Stored y)
    → Stored (if b then x else y)
Stored-if true x y h k = h refl
Stored-if false x y h k = k refl

-- The arrays that a write to 0xa000-0xbfff may change.
with_arrays :
    {cart : Cart} (rtc mbc2 : Bytes) (ram : Option Bytes) (halt : ℕ)
    → IsValid cart
    → IsBytes rtc
    → IsBytes mbc2
    → ((r : Bytes) → ram ≡ some r → IsBytes r)
    → IsValid (record cart { rtc = rtc; rtc_halt = halt; mbc2_ram = mbc2; ram = ram })
with_arrays rtc mbc2 ram halt v h k l = record {
  image = v.image;
  rom = v.rom;
  image_bytes = v.image_bytes;
  banks = v.banks;
  rom_size = v.rom_size;
  ram_bytes = l;
  rtc_bytes = h;
  latched_bytes = v.latched_bytes;
  mbc2_bytes = k;
  bank1 = v.bank1;
  bank2 = v.bank2;
  rom_bank = v.rom_bank;
}

write_clock-Stored :
    {cart : Cart} (x : ℕ)
    → IsValid cart
    → clock_selected cart ≡ true
    → x < 256
    → Stored (write_clock cart x)
unfolding write_clock
write_clock-Stored {cart} x v t small =
    let rtc_with : (i y halt : ℕ)
        → y < 256
        → IsValid (record cart { rtc = update cart.rtc i y; rtc_halt = halt }) =
      λ i y halt h.
        with_arrays (update cart.rtc i y) cart.mbc2_ram cart.ram halt v
          (update-IsBytes i v.rtc_bytes h) v.mbc2_bytes v.ram_bytes in
    Stored-if (cart.bank2 - 0x08 == 4) _ _
      (λ _. (_, refl, rtc_with 4 (bit_and x 0xc1) _ (omega (arith, bit_and-le_left x 0xc1))))
      (λ _. (
        _,
        rw (store_lem cart.rtc {size = 5} {i = cart.bank2 - 0x08} x (ground arith)),
        rtc_with (cart.bank2 - 0x08) x cart.rtc_halt small,
      ))

write_mbc2-Stored : {cart : Cart} (addr x : ℕ) → IsValid cart → Stored (write_mbc2 cart addr x)
unfolding write_mbc2
write_mbc2-Stored {cart} addr x v =
    let i : bit_and addr 0x1ff < 512 = omega (arith, bit_and-le_right addr 0x1ff) in
    let nibble : bit_and x 0x0f < 256 = omega (arith, bit_and-le_right x 0x0f) in
    Stored-if (nonzero cart.ram_enabled) _ _
      (λ _. (
        _,
        rw (store_lem cart.mbc2_ram (bit_and x 0x0f) i),
        with_arrays cart.rtc _ cart.ram cart.rtc_halt v v.rtc_bytes
            (update-IsBytes (bit_and addr 0x1ff) v.mbc2_bytes nibble) v.ram_bytes,
      ))
      (λ _. (_, refl, v))

some_eq : (d : Bytes) {a b : Bytes} → some a ≡ some b → a ≡ b
some_eq d e = ap (λ (o : Option Bytes). elim o [ none ↦ d | some r ↦ r ]) e

write_banked-Stored :
    {cart : Cart} (addr x : ℕ) → IsValid cart → x < 256 → Stored (write_banked cart addr x)
unfolding write_banked
write_banked-Stored {cart} addr x v small = go (open_ram cart) refl
  where
    offset : ℕ
    offset = ram_offset (write_ram_bank cart) addr

    go :
        (o : Option Bytes)
        → open_ram cart ≡ o
        → Stored (elim o [
          | none ↦ some cart
          | some ram ↦
              if ltb offset cart.ram_size
              then Option.map
                  (λ ram'. record cart { ram = some ram' })
                  (store ram cart.ram_size offset x)
              else some cart
        ])
    go none e = (_, refl, v)
    go (some ram) e =
        Stored-if (ltb offset cart.ram_size) _ _
          (λ t. (
            _,
            rw (store_lem ram x (ltb→lt _ _ t)),
            with_arrays cart.rtc cart.mbc2_ram (some (update ram offset x)) cart.rtc_halt v
                v.rtc_bytes v.mbc2_bytes
                (λ r k.
                  subst IsBytes (some_eq ram k)
                    (update-IsBytes offset (v.ram_bytes ram (ground arith)) small)),
          ))
          (λ _. (_, refl, v))

-- On a loaded cartridge a write of a byte, at any address, stores inside its arrays only, and
-- leaves the cartridge valid.
pub cart_write-Stored :
    {cart : Cart} (addr x : ℕ) → IsValid cart → x < 256 → Stored (cart_write cart addr x)
unfolding cart_write write_ram
cart_write-Stored {cart} addr x v small =
    Stored-if (ltb addr 0x8000) _ _ (λ _. (_, refl, write_reg-IsValid addr x v small))
      (λ _.
        Stored-if (clock_selected cart) _ _ (λ t. write_clock-Stored x v t small)
          (λ _.
            Stored-if (is_mbc2 cart.type) _ _ (λ _. write_mbc2-Stored addr x v)
              (λ _. write_banked-Stored addr x v small)))
