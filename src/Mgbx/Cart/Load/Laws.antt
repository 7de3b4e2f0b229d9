-- ===== src/Mgbx/Cart/Load/Laws.antt =====
-- What loading leaves: a valid cartridge, or none.
use aarch.Prelude.{
  ℕ, zero, suc, ◌*◌, ◌≤◌, ◌<◌, ◌≡◌, refl, ap, arith, if◌then◌else◌, ltb, Bool, not, true, false,
  Option, none, some, Bytes, IsBytes, zeroed,
}
use mathlib.Core.Path.{subst}
use aarch.Common.Result.{EmuResult, ok, ebadrom}
use aarch.Mgbx.State.{Cart}
use aarch.Mgbx.Cart.{rom_at}
use aarch.Mgbx.Cart.Bounds.{IsValid}
use aarch.Mgbx.Cart.Load.{
  cart_load, load_banks, load_ram, cart_free, cart_reset, banks_from_code, type_supported,
  ram_size_of,
}

-- A loaded image with `n` banks, and its header.
pub record Loaded (bytes : Bytes) (n : ℕ) (cart : Cart) : Type 0 where
  pub valid : IsValid cart
  pub banks : cart.rom_banks ≡ n
  pub type : cart.type ≡ bytes 0x147
  pub image : (i : ℕ) → i < n * 0x4000 → rom_at cart i ≡ some (bytes i)
  pub ram_size : cart.ram_size ≡ ram_size_of (bytes 0x149) (bytes 0x147)

-- No image and no RAM.
pub record IsEmpty (cart : Cart) : Type 0 where
  pub rom : cart.rom ≡ none
  pub ram : cart.ram ≡ none
  pub rom_size : cart.rom_size ≡ 0

-- EMU_OK comes with a loaded cartridge for the banks that the header names and the data holds; an
-- error comes with an empty one.
abbrev pub Outcome : Bytes → ℕ → EmuResult × Cart → Type 0
Outcome bytes size p = elim p.0 [
  | ok ↦
      (n : ℕ) × (banks_from_code (bytes 0x148) ≡ some n) × (n * 0x4000 ≤ size) × Loaded bytes n p.1
  | _ ↦ IsEmpty p.1
]

Outcome-if :
    (bytes : Bytes) (size : ℕ) (b : Bool) (x y : EmuResult × Cart)
    → (b ≡ true → Outcome bytes size x)
    → (b ≡ false → Outcome bytes size y)
    → Outcome bytes size (if b then x else y)
Outcome-if bytes size true x y h k = h refl
Outcome-if bytes size false x y h k = k refl

banks_range :
    (code : ℕ) {banks : ℕ} → banks_from_code code ≡ some banks → (2 ≤ banks) × (banks ≤ 512)
banks_range zero e = ground arith
banks_range (suc zero) e = ground arith
banks_range (suc (suc zero)) e = ground arith
banks_range (suc (suc (suc zero))) e = ground arith
banks_range (suc (suc (suc (suc zero)))) e = ground arith
banks_range (suc (suc (suc (suc (suc zero))))) e = ground arith
banks_range (suc (suc (suc (suc (suc (suc zero)))))) e = ground arith
banks_range (suc (suc (suc (suc (suc (suc (suc zero))))))) e = ground arith
banks_range (suc (suc (suc (suc (suc (suc (suc (suc zero)))))))) e = ground arith
banks_range (suc (suc (suc (suc (suc (suc (suc (suc (suc n))))))))) e = ground arith

cart_reset-Loaded :
    {bytes : Bytes} {n : ℕ} (cart : Cart)
    → cart.rom ≡ some bytes
    → IsBytes bytes
    → (2 ≤ n) × (n ≤ 512)
    → cart.rom_banks ≡ n
    → cart.rom_size ≡ n * 0x4000
    → cart.type ≡ bytes 0x147
    → cart.ram_size ≡ ram_size_of (bytes 0x149) (bytes 0x147)
    → Loaded bytes n (cart_reset cart)
unfolding cart_reset rom_at
cart_reset-Loaded {bytes} {n} cart rom h range e e' t r = record {
  valid = record {
    image = bytes;
    rom = rom;
    image_bytes = h;
    banks = ground (arith, e, range);
    rom_size = ground (arith, e, e');
    ram_bytes = λ ram k. reset_ram cart.ram ram k;
    rtc_bytes = λ i. omega arith;
    latched_bytes = λ i. omega arith;
    mbc2_bytes = λ i. omega arith;
    bank1 = omega arith;
    bank2 = omega arith;
    rom_bank = omega arith;
  };
  banks = e;
  type = t;
  image = λ i small. ground (arith, rom, e');
  ram_size = r;
}
  where
    reset_ram :
        (o : Option Bytes) (ram : Bytes)
        → elim o [ none ↦ none | some r ↦ some zeroed ] ≡ some ram
        → IsBytes ram
    reset_ram none ram k = cc
    reset_ram (some r) ram k =
        subst IsBytes (ap (λ (o : Option Bytes). elim o [ none ↦ zeroed | some x ↦ x ]) k)
          (λ i. omega arith)

freed : (cart : Cart) → IsEmpty (cart_free cart)
unfolding cart_free
freed cart = record { rom = refl; ram = refl; rom_size = refl }

module _ (rom_malloc ram_malloc : Bool) (bytes : Bytes) (size : ℕ) where
  load_ram-Outcome :
      {n : ℕ} (cart : Cart)
      → cart.rom ≡ some bytes
      → IsBytes bytes
      → banks_from_code (bytes 0x148) ≡ some n
      → n * 0x4000 ≤ size
      → cart.rom_banks ≡ n
      → cart.rom_size ≡ n * 0x4000
      → cart.type ≡ bytes 0x147
      → Outcome bytes size
          (load_ram rom_malloc ram_malloc cart (ram_size_of (bytes 0x149) (bytes 0x147)))
  unfolding load_ram
  load_ram-Outcome {n} cart rom h code fits e e' t =
      let size' = ram_size_of (bytes 0x149) (bytes 0x147) in
      let done : (ram : Option Bytes)
          → Outcome bytes size (ok, cart_reset (record cart { ram_size = size'; ram = ram })) =
        λ ram.
          (n, code, fits, cart_reset-Loaded _ rom h (banks_range (bytes 0x148) code) e e' t refl) in
      Outcome-if bytes size (ltb 0 size') _ _
        (λ _. Outcome-if bytes size ram_malloc _ _ (λ _. done (some zeroed)) (λ _. freed _))
        (λ _. done cart.ram)

  load_banks-Outcome :
      {n : ℕ} {cart : Cart}
      → IsEmpty cart
      → IsBytes bytes
      → banks_from_code (bytes 0x148) ≡ some n
      → Outcome bytes size (load_banks rom_malloc ram_malloc cart bytes size n)
  unfolding load_banks
  load_banks-Outcome {n} {cart} none_there h code =
      Outcome-if bytes size (ltb size (n * 0x4000)) _ _ (λ _. none_there)
        (λ fits.
          Outcome-if bytes size (not rom_malloc) _ _ (λ _. none_there)
            (λ _. load_ram-Outcome _ refl h code (ground arith) refl refl refl))

  -- Loading any bytes, with any outcome of the two allocations, ends in EMU_OK with a valid cartridge
  -- that holds the data's banks, type and RAM size, where the header names a bank count that the
  -- data covers; or in an error with a cartridge that has no ROM and no RAM.
  pub cart_load-Outcome :
      (cart : Cart)
      → IsBytes bytes
      → Outcome bytes size (cart_load rom_malloc ram_malloc cart bytes size)
  unfolding cart_load
  cart_load-Outcome cart h =
      Outcome-if bytes size (ltb size 0x150) _ _ (λ _. freed cart)
        (λ _.
          Outcome-if bytes size (not (type_supported (bytes 0x147))) _ _ (λ _. freed cart)
            (λ _. go (banks_from_code (bytes 0x148)) refl))
    where
      go :
          (o : Option ℕ)
          → banks_from_code (bytes 0x148) ≡ o
          → Outcome bytes size (elim o [
            | none ↦ (ebadrom, cart_free cart)
            | some banks ↦ load_banks rom_malloc ram_malloc (cart_free cart) bytes size banks
          ])
      go none e = freed cart
      go (some n) e = load_banks-Outcome (freed cart) h e
