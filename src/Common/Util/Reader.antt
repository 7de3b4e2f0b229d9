-- ===== src/Common/Util/Reader.antt =====
-- `emu_state_reader` of src/common/util.c. A read past the end gives 0 and sets `bad`.
pub mod Holds
pub mod Bounds
use aarch.Prelude.{ℕ, ◌+◌, ◌-◌, bit_or, u16, u32, u64, ◌<<<◌, Bytes, ltb, if◌then◌else◌, ◌&&◌, ◌||◌}

pub record Reader : Type 0 where
  pub buf : Bytes
  pub size : ℕ
  pub pos : ℕ
  pub bad : ℕ

unfoldable pub sr_u8 : Reader → ℕ × Reader
sr_u8 r =
    if ltb r.pos r.size
    then (r.buf r.pos, record r { pos = u64 (r.pos + 1) })
    else (0, record r { bad = 1 })

unfoldable pub sr_u16 : Reader → ℕ × Reader
sr_u16 r = let (lo, r') = sr_u8 r in let (hi, r'') = sr_u8 r' in (u16 (bit_or lo (hi <<< 8)), r'')

unfoldable pub sr_u32 : Reader → ℕ × Reader
sr_u32 r =
    let (lo, r') = sr_u16 r in let (hi, r'') = sr_u16 r' in (bit_or lo (u32 (hi <<< 16)), r'')

unfoldable pub sr_u64 : Reader → ℕ × Reader
sr_u64 r =
    let (lo, r') = sr_u32 r in let (hi, r'') = sr_u32 r' in (bit_or lo (u64 (hi <<< 32)), r'')

-- What `sr_mem` leaves in the destination `p`, and the reader after it. Past the end, what is left
-- of the blob is copied and the rest is zeroed.
unfoldable pub sr_mem : Reader → Bytes → ℕ → Bytes × Reader
sr_mem r p n =
    if ltb r.size r.pos || ltb (r.size - r.pos) n
    then (
      (λ i.
          if ltb i n
          then (if ltb r.pos r.size && ltb i (r.size - r.pos) then r.buf (r.pos + i) else 0)
          else p i),
      record r { pos = r.size; bad = 1 },
    )
    else ((λ i. if ltb i n then r.buf (r.pos + i) else p i), record r { pos = u64 (r.pos + n) })
