-- ===== src/Common/Util/Writer/Bulk.antt =====
-- `sw_mem` against the bytes one by one.
use mathlib.Core.Path.{fun_ext}
use aarch.Prelude.{
  ℕ, zero, suc, ◌+◌, ◌^◌, ◌≤◌, ◌<◌, ◌≡◌, ◌⊎◌, refl, ap, arith, List, [], ◌∷◌, u8, Bytes, IsBytes,
  update, copy_to, length, Option, none, some,
}
use aarch.Common.Util.Writer.{Writer, sw_u8, sw_mem}
use aarch.Common.Util.Writer.Emit.{slice, emit}

pub length-slice : (p : Bytes) (i n : ℕ) → length (slice p i n) ≡ n
length-slice p i zero = refl
length-slice p i (suc n) = ap suc (length-slice p (i + 1) n)

copy_to-zero : (b p : Bytes) (at : ℕ) → copy_to b at p 0 ≡ b
copy_to-zero b p at = fun_ext λ j. ground arith

copy_to-suc :
    (b p : Bytes) (at i n : ℕ)
    → copy_to (update b at (p i)) (at + 1) (λ k. p (i + 1 + k)) n
      ≡ copy_to b at (λ k. p (i + k)) (suc n)
copy_to-suc b p at i n = fun_ext λ j. ground arith

-- A writer over a real buffer.
abbrev over : Bytes → ℕ → ℕ → ℕ → Writer
over b size pos overflow = record { buf = some b; cap = size; pos = pos; overflow = overflow }

sw_u8_fits :
    (b : Bytes) (size pos overflow x : ℕ)
    → x < 256
    → pos < size
    → size < 2 ^ 64
    → sw_u8 (over b size pos overflow) x ≡ over (update b pos x) size (pos + 1) overflow
unfolding sw_u8
sw_u8_fits b size pos overflow x h fits small = let byte : u8 x ≡ x = omega arith in ground arith

emit-slice_fits :
    (n : ℕ) (p : Bytes) (i : ℕ) (b : Bytes) (size pos overflow : ℕ)
    → IsBytes p
    → pos + n ≤ size
    → size < 2 ^ 64
    → emit (over b size pos overflow) (slice p i n)
      ≡ over (copy_to b pos (λ k. p (i + k)) n) size (pos + n) overflow
unfolding emit
emit-slice_fits zero p i b size pos overflow h fits small =
    ground (arith, copy_to-zero b (λ k. p (i + k)) pos)
emit-slice_fits (suc n) p i b size pos overflow h fits small = ground (
  arith,
  sw_u8_fits b size pos overflow (p i) (h i),
  emit-slice_fits n p (i + 1) (update b pos (p i)) size (pos + 1) overflow h,
  copy_to-suc b p pos i n,
)

emit_counting :
    (xs : List ℕ) (size pos overflow : ℕ)
    → pos + length xs < 2 ^ 64
    → emit (record { buf = none; cap = size; pos = pos; overflow = overflow }) xs
      ≡ record { buf = none; cap = size; pos = pos + length xs; overflow = overflow }
unfolding emit sw_u8
emit_counting [] size pos overflow h = ground arith
emit_counting (x ∷ xs) size pos overflow h =
    ground (arith, emit_counting xs size (pos + 1) overflow)

sw_mem_parts :
    (buf : Option Bytes) (size pos overflow : ℕ) (p : Bytes) (n : ℕ)
    → IsBytes p
    → (buf ≡ none) ⊎ (pos + n ≤ size)
    → size < 2 ^ 64
    → pos + n < 2 ^ 64
    → let w : Writer = record { buf = buf; cap = size; pos = pos; overflow = overflow } in
      sw_mem w p n ≡ emit w (slice p 0 n)
unfolding sw_mem
sw_mem_parts none size pos overflow p n h fits small pos_small =
    ground (arith, length-slice p 0 n, emit_counting (slice p 0 n) size pos overflow)
sw_mem_parts (some b) size pos overflow p n h fits small pos_small =
    let room : pos + n ≤ size = ground arith in
    ground (arith, emit-slice_fits n p 0 b size pos overflow h room small, copy_to_shift)
  where
    copy_to_shift : copy_to b pos (λ k. p (0 + k)) n ≡ copy_to b pos p n
    copy_to_shift = fun_ext λ j. ground arith

-- On bytes that fit the buffer, or that a writer without buffer counts, `sw_mem` does what `sw_u8`
-- does byte by byte; the capacity and the end are below 2 ^ 64.
pub sw_mem-eq-emit :
    (w : Writer) (p : Bytes) (n : ℕ)
    → IsBytes p
    → (w.buf ≡ none) ⊎ (w.pos + n ≤ w.cap)
    → w.cap < 2 ^ 64
    → w.pos + n < 2 ^ 64
    → sw_mem w p n ≡ emit w (slice p 0 n)
sw_mem-eq-emit w p n = sw_mem_parts w.buf w.cap w.pos w.overflow p n
