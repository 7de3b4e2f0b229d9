-- ===== src/Common/Util/Endian.antt =====
-- The pointer-based little-endian access of src/common/util.c against its store, and against the
-- state reader.
use aarch.Prelude.{
  ℕ, ◌+◌, ◌*◌, ◌^◌, ◌≤◌, ◌<◌, ◌≡◌, ◌⊎◌, arith, Bytes, IsBytes, bit_and_mask, bit_or_low, u16, u32,
  ◌>>>◌,
}
use aarch.Common.Util.{le16, le32, store_le16, store_le32}
use aarch.Common.Util.Reader.{Reader, sr_u32}
use aarch.Common.Util.Reader.Holds.{Room, advanced, sr_u32_lem}

le16_sum : (p : Bytes) (i : ℕ) → p i < 256 → p (i + 1) < 256 → le16 p i ≡ p i + 256 * p (i + 1)
unfolding le16
le16_sum p i h k = omega (arith, bit_or_low 8 (p (i + 1)) (p i) h)

le32_sum :
    (p : Bytes) (i : ℕ)
    → p i < 256
    → p (i + 1) < 256
    → p (i + 2) < 256
    → p (i + 3) < 256
    → le32 p i ≡ p i + 2 ^ 8 * p (i + 1) + 2 ^ 16 * p (i + 2) + 2 ^ 24 * p (i + 3)
unfolding le32
le32_sum p i h0 h1 h2 h3 = ground (
  arith,
  bit_or_low 8 (p (i + 1)) (p i) h0,
  bit_or_low 16 (p (i + 2)) (p (i + 1) * 2 ^ 8 + p i),
  bit_or_low 24 (p (i + 3)) (p (i + 2) * 2 ^ 16 + (p (i + 1) * 2 ^ 8 + p i)),
)

-- What a store leaves is read back, and the bytes around it stay.
pub le32-store_le32 :
    (p : Bytes) (i v : ℕ)
    → (le16 (store_le16 p i v) i ≡ u16 v)
      × (le32 (store_le32 p i v) i ≡ u32 v)
      × ((j : ℕ) → (j < i) ⊎ (i + 4 ≤ j) → store_le32 p i v j ≡ p j)
unfolding store_le16 store_le32
le32-store_le32 p i v = (
  ground (
    arith,
    bit_and_mask 8 v,
    bit_and_mask 8 (v >>> 8),
    le16_sum (unfold store_le16 in store_le16 p i v) i,
  ),
  ground (
    arith,
    bit_and_mask 8 v,
    bit_and_mask 8 (v >>> 8),
    bit_and_mask 8 (v >>> 16),
    bit_and_mask 8 (v >>> 24),
    le32_sum (store_le32 p i v) i,
  ),
  λ j h. ground arith,
)

-- The state reader decodes what `emu_le32` decodes.
pub sr_u32-eq-le32 :
    (r : Reader) → IsBytes r.buf → Room r 4 → sr_u32 r ≡ (le32 r.buf r.pos, advanced r 4)
sr_u32-eq-le32 r h room = ground (
  arith,
  le32_sum r.buf r.pos (h r.pos) (h (r.pos + 1)) (h (r.pos + 2)) (h (r.pos + 3)),
  sr_u32_lem r (le32 r.buf r.pos) room,
  h r.pos,
  h (r.pos + 1),
  h (r.pos + 2),
  h (r.pos + 3),
)
