-- ===== src/Common/Util.antt =====
-- src/common/util.c: little-endian access, and the byte-level state writer and reader that every
-- core's save states go through. Lengths and offsets are `size_t`.
pub mod Writer
pub mod Reader
pub mod RoundTrip
pub mod Crc
pub mod Parts
pub mod Reading
pub mod Endian
mod Tests
use aarch.Prelude.{
  ℕ, ◌+◌, ◌*◌, ◌/◌, ◌%◌, ◌^◌, bit_and, bit_or, u8, u16, u32, ◌<<<◌, ◌>>>◌, Bytes, update,
}

-- `emu_le16`: the pointer is an array and the offset into it.
unfoldable pub le16 : Bytes → ℕ → ℕ
le16 p i = u16 (bit_or (p i) (p (i + 1) <<< 8))

unfoldable pub le32 : Bytes → ℕ → ℕ
le32 p i =
    bit_or (bit_or (bit_or (p i) (p (i + 1) <<< 8)) (p (i + 2) <<< 16)) (u32 (p (i + 3) <<< 24))

unfoldable pub store_le16 : Bytes → ℕ → ℕ → Bytes
store_le16 p i v = update (update p i (bit_and v 0xff)) (i + 1) (bit_and (v >>> 8) 0xff)

unfoldable pub store_le32 : Bytes → ℕ → ℕ → Bytes
store_le32 p i v =
    let a = update p i (bit_and v 0xff) in
    let b = update a (i + 1) (bit_and (v >>> 8) 0xff) in
    let c = update b (i + 2) (bit_and (v >>> 16) 0xff) in update c (i + 3) (bit_and (v >>> 24) 0xff)
