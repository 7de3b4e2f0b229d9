-- ===== src/Mgbx/Cart/Load/Accepts.antt =====
-- Which images a cartridge is loaded from.
use mathlib.Core.Logic.{◌↔◌}
use native.Mathlib.Nat.{one-le-pow}
use aarch.Prelude.{
  ℕ, ◌*◌, ◌^◌, ◌≤◌, ◌≡◌, ◌⊎◌, inl, inr, refl, arith, ltb, branches, not, true, le→ltb_false, Option,
  none, some, Bytes,
}
use aarch.Common.Result.{EmuResult, ok, ebadrom}
use aarch.Mgbx.State.{Cart}
use aarch.Mgbx.Cart.Load.{
  cart_load, load_banks, load_ram, cart_free, banks_from_code, type_supported,
}

-- The mappers by their numbers: ROM only and MBC1, MBC2, MBC3 with its clock, MBC5.
abbrev pub IsMapper : ℕ → Type 0
IsMapper t =
    (t ≤ 0x03) ⊎ ((0x05 ≤ t) × (t ≤ 0x06)) ⊎ ((0x0f ≤ t) × (t ≤ 0x13)) ⊎ ((0x19 ≤ t) × (t ≤ 0x1e))

-- The data holds the ROM of a size code: 32 KiB doubled up to 8 times, or 1.125, 1.25 or 1.5 MiB.
abbrev pub HoldsRom : ℕ → ℕ → Type 0
HoldsRom code size =
    ((code ≤ 8) × (2 ^ code * 0x8000 ≤ size))
    ⊎ ((code ≡ 0x52) × (0x12_0000 ≤ size))
    ⊎ ((code ≡ 0x53) × (0x14_0000 ≤ size))
    ⊎ ((code ≡ 0x54) × (0x18_0000 ≤ size))

type_supported-IsMapper : (t : ℕ) → type_supported t ≡ true → IsMapper t
type_supported-IsMapper t h = ground arith

IsMapper-type_supported : (t : ℕ) → IsMapper t → type_supported t ≡ true
IsMapper-type_supported t h = ground arith

banks-HoldsRom :
    (code size n : ℕ) → banks_from_code code ≡ some n → n * 0x4000 ≤ size → HoldsRom code size
banks-HoldsRom code size n e h = ground arith

HoldsRom-banks :
    (code size : ℕ)
    → HoldsRom code size
    → (n : ℕ) × (banks_from_code code ≡ some n) × (n * 0x4000 ≤ size) × (0x8000 ≤ size)
HoldsRom-banks code size (inl (small, fits)) =
    (2 * 2 ^ code, ground arith, omega arith, omega (arith, one-le-pow code 2))
HoldsRom-banks code size (inr (inl (e, fits))) = (72, rw e refl, omega arith, omega arith)
HoldsRom-banks code size (inr (inr (inl (e, fits)))) = (80, rw e refl, omega arith, omega arith)
HoldsRom-banks code size (inr (inr (inr (e, fits)))) = (96, rw e refl, omega arith, omega arith)

load_banks-covers :
    (cart : Cart) (bytes : Bytes) (size n : ℕ)
    → (load_banks true true cart bytes size n).0 ≡ ok
    → n * 0x4000 ≤ size
unfolding load_banks
load_banks-covers cart bytes size n e =
    branches (λ (r : EmuResult × Cart). r.0 ≡ ok → n * 0x4000 ≤ size) (ltb size (n * 0x4000))
      (λ _ refused. cc) (λ long _. ground arith) e

sized_banks :
    (cart : Cart) (bytes : Bytes) (size : ℕ) (o : Option ℕ)
    → banks_from_code (bytes 0x148) ≡ o
    → (elim o as (λ _. EmuResult × Cart) [
      | none ↦ (ebadrom, cart)
      | some n ↦ load_banks true true cart bytes size n
    ]).0
      ≡ ok
    → HoldsRom (bytes 0x148) size
sized_banks cart bytes size none code e = cc
sized_banks cart bytes size (some n) code e =
    banks-HoldsRom (bytes 0x148) size n code (load_banks-covers cart bytes size n e)

cart_load-IsMapper :
    (cart : Cart) (bytes : Bytes) (size : ℕ)
    → (cart_load true true cart bytes size).0 ≡ ok
    → IsMapper (bytes 0x147) × HoldsRom (bytes 0x148) size
unfolding cart_load
cart_load-IsMapper cart bytes size e =
    let Goal : EmuResult × Cart → Type 0 =
      λ r. r.0 ≡ ok → IsMapper (bytes 0x147) × HoldsRom (bytes 0x148) size in
    branches Goal (ltb size 0x150) (λ _ refused. cc)
      (λ _.
        branches Goal (not (type_supported (bytes 0x147))) (λ _ refused. cc)
          (λ known taken. (
            type_supported-IsMapper (bytes 0x147) (ground (arith, known)),
            sized_banks (cart_free cart) bytes size (banks_from_code (bytes 0x148)) refl taken,
          )))
      e

IsMapper-cart_load :
    (cart : Cart) (bytes : Bytes) (size : ℕ)
    → IsMapper (bytes 0x147) × HoldsRom (bytes 0x148) size
    → (cart_load true true cart bytes size).0 ≡ ok
unfolding cart_load load_banks load_ram
IsMapper-cart_load cart bytes size (mapper, holds) =
    let (n, code, fits, long) = HoldsRom-banks (bytes 0x148) size holds in
    rw
      (
        le→ltb_false 0x150 size (omega arith),
        IsMapper-type_supported (bytes 0x147) mapper,
        code,
        le→ltb_false (n * 0x4000) size fits,
      )
      (ground arith)

-- With both allocations made, an image is accepted exactly when its type byte is that of ROM only,
-- MBC1, MBC2, MBC3 or MBC5, and its data holds the ROM of its size code: 32 KiB doubled up to 8
-- times, or 1.125, 1.25 or 1.5 MiB; the rest of the header and of the data does not matter.
pub cart_load_accepts :
    (cart : Cart) (bytes : Bytes) (size : ℕ)
    → ((cart_load true true cart bytes size).0 ≡ ok)
      ↔ (IsMapper (bytes 0x147) × HoldsRom (bytes 0x148) size)
cart_load_accepts cart bytes size =
    (cart_load-IsMapper cart bytes size, IsMapper-cart_load cart bytes size)
