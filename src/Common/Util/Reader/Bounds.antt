-- ===== src/Common/Util/Reader/Bounds.antt =====
-- A reader never leaves its blob: each read advances by its width or to the end, and says so.
use Prim.Native.Nat.{min}
use aarch.Prelude.{ℕ, ◌+◌, ◌^◌, ◌≤◌, ◌<◌, ◌≡◌, ◌∙◌, arith, Bytes, ltb, if◌then◌else◌}
use aarch.Common.Util.Reader.{Reader, sr_u8, sr_u16, sr_u32, sr_u64, sr_mem}

-- The offset stands in the blob.
pub record IsValid (r : Reader) : Type 0 where
  pub inside : r.pos ≤ r.size
  pub small : r.size < 2 ^ 64

-- The reader after a read of `n` bytes: `bad` is set exactly when they were not all there, and is
-- never cleared.
pub record Reads (n : ℕ) (r r' : Reader) : Type 0 where
  pub buf : r'.buf ≡ r.buf
  pub size : r'.size ≡ r.size
  pub pos : r'.pos ≡ min (r.pos + n) r.size
  pub bad : r'.bad ≡ (if ltb r.size (r.pos + n) then 1 else r.bad)

pub Reads-IsValid : {n : ℕ} {r r' : Reader} → IsValid r → Reads n r r' → IsValid r'
Reads-IsValid v h = record { inside = omega arith; small = omega arith }

pub Reads-trans :
    (m n k : ℕ) {r r' r'' : Reader}
    → m + n ≡ k
    → IsValid r
    → Reads m r r'
    → Reads n r' r''
    → Reads k r r''
Reads-trans m n k e v h h' = record {
  buf = h'.buf ∙ h.buf;
  size = h'.size ∙ h.size;
  pos = omega arith;
  bad = ground (arith, h.bad, h'.bad, h.pos, h.size);
}

sr_u8-Reads : (r : Reader) → IsValid r → Reads 1 r (sr_u8 r).1
unfolding sr_u8
sr_u8-Reads r v = record {
  buf = ground arith;
  size = ground arith;
  pos = ground arith;
  bad = ground arith;
}

sr_u16-Reads : (r : Reader) → IsValid r → Reads 2 r (sr_u16 r).1
unfolding sr_u16
sr_u16-Reads r v =
    let first : Reads 1 r (sr_u8 r).1 = sr_u8-Reads r v in
    Reads-trans 1 1 2 (omega arith) v first (sr_u8-Reads (sr_u8 r).1 (Reads-IsValid v first))

sr_u32-Reads : (r : Reader) → IsValid r → Reads 4 r (sr_u32 r).1
unfolding sr_u32
sr_u32-Reads r v =
    let first : Reads 2 r (sr_u16 r).1 = sr_u16-Reads r v in
    Reads-trans 2 2 4 (omega arith) v first (sr_u16-Reads (sr_u16 r).1 (Reads-IsValid v first))

sr_u64-Reads : (r : Reader) → IsValid r → Reads 8 r (sr_u64 r).1
unfolding sr_u64
sr_u64-Reads r v =
    let first : Reads 4 r (sr_u32 r).1 = sr_u32-Reads r v in
    Reads-trans 4 4 8 (omega arith) v first (sr_u32-Reads (sr_u32 r).1 (Reads-IsValid v first))

sr_mem-Reads : (r : Reader) (p : Bytes) (n : ℕ) → IsValid r → Reads n r (sr_mem r p n).1
unfolding sr_mem
sr_mem-Reads r p n v = record {
  buf = ground arith;
  size = ground arith;
  pos = ground arith;
  bad = ground arith;
}

-- Every read of the state reader, whatever the blob holds, keeps the offset inside the blob,
-- advances by its width or to the end, and sets `bad` exactly when bytes were missing.
pub sr-Reads :
    (r : Reader) (p : Bytes) (n : ℕ)
    → IsValid r
    → Reads 1 r (sr_u8 r).1
      × Reads 2 r (sr_u16 r).1
      × Reads 4 r (sr_u32 r).1
      × Reads 8 r (sr_u64 r).1
      × Reads n r (sr_mem r p n).1
sr-Reads r p n v =
    (sr_u8-Reads r v, sr_u16-Reads r v, sr_u32-Reads r v, sr_u64-Reads r v, sr_mem-Reads r p n v)
