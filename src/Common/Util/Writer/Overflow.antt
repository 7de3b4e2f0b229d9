-- ===== src/Common/Util/Writer/Overflow.antt =====
-- The offset advances whatever the buffer is, and the overflow flag tells whether all of it fitted.
use aarch.Prelude.{
  ℕ, ◌+◌, ◌^◌, ◌≤◌, ◌<◌, ◌≡◌, ◌⊎◌, inl, arith, List, [], ◌∷◌, u8, Bytes, update, length, some, ltb,
  if◌then◌else◌,
}
use aarch.Common.Util.Writer.{Writer, sw_u8, sw_u16, sw_u32, sw_u64, sw_mem}
use aarch.Common.Util.Writer.Emit.{
  le_bytes, emit, sw_u8-eq-emit, sw_u16-eq-emit, sw_u32-eq-emit, sw_u64-eq-emit,
}

pub pos-emit :
    (w : Writer) (xs : List ℕ) → w.pos + length xs < 2 ^ 64 → (emit w xs).pos ≡ w.pos + length xs
unfolding emit
pos-emit w [] h = omega arith
pos-emit w (x ∷ xs) h =
    let first : (sw_u8 w x).pos ≡ w.pos + 1 = unfold sw_u8 in ground arith in
    omega (arith, first, pos-emit (sw_u8 w x) xs (omega arith))

record Stepped (w : Writer) (w' : Writer) : Type 0 where
  out : Bytes
  buf : w'.buf ≡ some out
  cap : w'.cap ≡ w.cap
  pos : w'.pos ≡ w.pos + 1
  overflow : w'.overflow ≡ (if ltb w.pos w.cap then w.overflow else 1)

sw_u8-Stepped :
    {w : Writer} {b : Bytes} (x : ℕ) → w.buf ≡ some b → w.pos + 1 < 2 ^ 64 → Stepped w (sw_u8 w x)
unfolding sw_u8
sw_u8-Stepped {w} {b} x e h = record {
  out = if ltb w.pos w.cap then update b w.pos (u8 x) else b;
  buf = ground arith;
  cap = ground arith;
  pos = ground arith;
  overflow = ground arith;
}

-- Over a real buffer the flag is set exactly when the bytes reach past the end, and then stays.
overflow-emit :
    (xs : List ℕ) {w : Writer} {b : Bytes}
    → w.buf ≡ some b
    → w.pos + length xs < 2 ^ 64
    → (w.pos ≤ w.cap) ⊎ (w.overflow ≡ 1)
    → (emit w xs).overflow ≡ (if ltb w.cap (w.pos + length xs) then 1 else w.overflow)
unfolding emit
overflow-emit [] {w} e h p = ground arith
overflow-emit (x ∷ xs) {w} {b} e h p =
    let first : Stepped w (sw_u8 w x) = sw_u8-Stepped x e (omega arith) in
    let start : ((sw_u8 w x).pos ≤ (sw_u8 w x).cap) ⊎ ((sw_u8 w x).overflow ≡ 1) =
      ground (arith, first.cap, first.pos, first.overflow) in
    let rest = overflow-emit xs first.buf (omega (arith, first.pos)) start in
    ground (arith, first.cap, first.pos, first.overflow, rest)

sw_mem-overflow :
    (w : Writer) {b : Bytes} (p : Bytes) (n : ℕ)
    → w.buf ≡ some b
    → w.pos ≤ w.cap
    → (sw_mem w p n).overflow ≡ (if ltb w.cap (w.pos + n) then 1 else w.overflow)
unfolding sw_mem
sw_mem-overflow w p n e h = ground arith

-- Over a real buffer, of a capacity that stays below 2 ^ 64 with 8 more, and from an offset inside
-- it, each `sw_*` sets the flag exactly when its
-- bytes reach past the end, and otherwise leaves it.
pub sw_overflow :
    (w : Writer) {b : Bytes} (v : ℕ) (p : Bytes) (n : ℕ)
    → w.buf ≡ some b
    → w.pos ≤ w.cap
    → w.cap + 8 < 2 ^ 64
    → ((sw_u8 w v).overflow ≡ (if ltb w.cap (w.pos + 1) then 1 else w.overflow))
      × ((sw_u16 w v).overflow ≡ (if ltb w.cap (w.pos + 2) then 1 else w.overflow))
      × ((sw_u32 w v).overflow ≡ (if ltb w.cap (w.pos + 4) then 1 else w.overflow))
      × ((sw_u64 w v).overflow ≡ (if ltb w.cap (w.pos + 8) then 1 else w.overflow))
      × ((sw_mem w p n).overflow ≡ (if ltb w.cap (w.pos + n) then 1 else w.overflow))
sw_overflow w v p n e h small = (
  rw (sw_u8-eq-emit w v) (overflow-emit (le_bytes 1 v) e (omega arith) (inl h)),
  rw (sw_u16-eq-emit w v) (overflow-emit (le_bytes 2 v) e (omega arith) (inl h)),
  rw (sw_u32-eq-emit w v) (overflow-emit (le_bytes 4 v) e (omega arith) (inl h)),
  rw (sw_u64-eq-emit w v) (overflow-emit (le_bytes 8 v) e (omega arith) (inl h)),
  sw_mem-overflow w p n e h,
)
