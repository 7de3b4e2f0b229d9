-- ===== src/Common/Util/Writer.antt =====
-- `emu_state_writer` of src/common/util.c. A NULL buffer counts and stores nothing.
pub mod Emit
pub mod Content
pub mod Bulk
pub mod Overflow
use aarch.Prelude.{
  ℕ, ◌+◌, ◌-◌, ◌/◌, ◌%◌, ◌^◌, bit_and, u8, u16, u32, u64, ◌>>>◌, Bytes, update, copy_to, ltb, leb,
  if◌then◌else◌, ◌&&◌, Option, none, some,
}

pub record Writer : Type 0 where
  pub buf : Option Bytes
  pub cap : ℕ
  pub pos : ℕ
  pub overflow : ℕ

-- The argument is converted to `uint8_t`.
unfoldable pub sw_u8 : Writer → ℕ → Writer
sw_u8 w v = elim w.buf [
  | none ↦ record w { pos = u64 (w.pos + 1) }
  | some b ↦
      if ltb w.pos w.cap
      then record w { buf = some (update b w.pos (u8 v)); pos = u64 (w.pos + 1) }
      else record w { overflow = 1; pos = u64 (w.pos + 1) }
]

unfoldable pub sw_u16 : Writer → ℕ → Writer
sw_u16 w v = let w' = sw_u8 w (bit_and (u16 v) 0xff) in sw_u8 w' (bit_and (u16 v >>> 8) 0xff)

unfoldable pub sw_u32 : Writer → ℕ → Writer
sw_u32 w v = let w' = sw_u16 w (bit_and (u32 v) 0xffff) in sw_u16 w' (bit_and (u32 v >>> 16) 0xffff)

unfoldable pub sw_u64 : Writer → ℕ → Writer
sw_u64 w v =
    let w' = sw_u32 w (bit_and (u64 v) 0xffff_ffff) in
    sw_u32 w' (bit_and (u64 v >>> 32) 0xffff_ffff)

unfoldable pub sw_mem : Writer → Bytes → ℕ → Writer
sw_mem w p n = elim w.buf [
  | none ↦ record w { pos = u64 (w.pos + n) }
  | some b ↦
      if leb w.pos w.cap && leb n (w.cap - w.pos)
      then record w { buf = some (copy_to b w.pos p n); pos = u64 (w.pos + n) }
      else record w { overflow = 1; pos = u64 (w.pos + n) }
]
