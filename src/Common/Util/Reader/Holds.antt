-- ===== src/Common/Util/Reader/Holds.antt =====
-- Reading back what stands in the blob: each `sr_*` is the inverse of the writer's bytes.
use aarch.Prelude.{ℕ, ◌+◌, ◌/◌, ◌%◌, ◌^◌, ◌≤◌, ◌<◌, ◌≡◌, arith, u16, u32, u64, bit_or_low}
use aarch.Common.Util.Writer.Emit.{le_bytes}
use aarch.Common.Util.Writer.Content.{Holds}
use aarch.Common.Util.Reader.{Reader, sr_u8, sr_u16, sr_u32, sr_u64}

-- The blob is long enough for `n` more bytes.
abbrev pub Room : Reader → ℕ → Type 0
Room r n = (r.pos + n ≤ r.size) × (r.size < 2 ^ 64)

abbrev pub advanced : Reader → ℕ → Reader
advanced r n = record r { pos = r.pos + n }

pub sr_u8_lem : (r : Reader) → Room r 1 → sr_u8 r ≡ (r.buf r.pos, advanced r 1)
unfolding sr_u8
sr_u8_lem r h = ground arith

pub sr_u16_lem :
    (r : Reader) (v : ℕ)
    → Room r 2
    → Holds r.buf r.pos (le_bytes 2 v)
    → sr_u16 r ≡ (u16 v, advanced r 2)
unfolding sr_u16
sr_u16_lem r v room held =
    simp (sr_u8_lem r (omega arith), sr_u8_lem (advanced r 1) (omega arith))
      (ground (arith, bit_or_low 8 (v / 256 % 256) (v % 256)))

pub sr_u32_lem :
    (r : Reader) (v : ℕ)
    → Room r 4
    → Holds r.buf r.pos (le_bytes 4 v)
    → sr_u32 r ≡ (u32 v, advanced r 4)
unfolding sr_u32
sr_u32_lem r v room held =
    simp
      (
        sr_u16_lem r v (omega arith) (ground arith),
        sr_u16_lem (advanced r 2) (v / 2 ^ 16) (omega arith) high,
      )
      (ground (arith, bit_or_low 16 (v / 2 ^ 16 % 2 ^ 16) (v % 2 ^ 16)))
  where
    high : Holds r.buf (r.pos + 2) (le_bytes 2 (v / 2 ^ 16))
    high = ground arith

pub sr_u64_lem :
    (r : Reader) (v : ℕ)
    → Room r 8
    → Holds r.buf r.pos (le_bytes 8 v)
    → sr_u64 r ≡ (u64 v, advanced r 8)
unfolding sr_u64
sr_u64_lem r v room held =
    simp
      (
        sr_u32_lem r v (omega arith) (ground arith),
        sr_u32_lem (advanced r 4) (v / 2 ^ 32) (omega arith) high,
      )
      (ground (arith, bit_or_low 32 (v / 2 ^ 32 % 2 ^ 32) (v % 2 ^ 32)))
  where
    high : Holds r.buf (r.pos + 4) (le_bytes 4 (v / 2 ^ 32))
    high = ground arith
