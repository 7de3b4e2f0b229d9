-- ===== src/Common/Util/Writer/Emit.antt =====
-- The abstract view of the writer: it appends a list of bytes.
use aarch.Prelude.{
  ℕ, zero, suc, ◌+◌, ◌/◌, ◌%◌, ◌≡◌, refl, ap, ◌∙◌, arith, List, [], ◌∷◌, ◌++◌, u8, u16, u32, u64,
  ◌>>>◌, Bytes, bit_and, bit_and_mask,
}
use aarch.Common.Util.Writer.{Writer, sw_u8, sw_u16, sw_u32, sw_u64}

-- The low `n` bytes of a number, the lowest first.
abbrev pub le_bytes : ℕ → ℕ → List ℕ
le_bytes zero v = []
le_bytes (suc n) v = v % 256 ∷ le_bytes n (v / 256)

-- The elements `p[i], …, p[i + n - 1]`.
abbrev pub slice : Bytes → ℕ → ℕ → List ℕ
slice p i zero = []
slice p i (suc n) = p i ∷ slice p (i + 1) n

-- One byte after another.
unfoldable pub emit : Writer → List ℕ → Writer
emit w [] = w
emit w (x ∷ xs) = emit (sw_u8 w x) xs

pub emit-append : (w : Writer) (xs ys : List ℕ) → emit w (xs ++ ys) ≡ emit (emit w xs) ys
unfolding emit
emit-append w [] ys = refl
emit-append w (x ∷ xs) ys = emit-append (sw_u8 w x) xs ys

sw_u8_cong : (w : Writer) (x y : ℕ) → u8 x ≡ u8 y → sw_u8 w x ≡ sw_u8 w y
unfolding sw_u8
sw_u8_cong w x y e = ground arith

pub sw_u8-eq-emit : (w : Writer) (v : ℕ) → sw_u8 w v ≡ emit w (le_bytes 1 v)
unfolding emit
sw_u8-eq-emit w v = sw_u8_cong w v (v % 256) (omega arith)

pub sw_u16-eq-emit : (w : Writer) (v : ℕ) → sw_u16 w v ≡ emit w (le_bytes 2 v)
unfolding sw_u16 emit
sw_u16-eq-emit w v =
    ap (λ u. sw_u8 u (bit_and (u16 v >>> 8) 0xff))
      (sw_u8_cong w (bit_and (u16 v) 0xff) (v % 256) (omega (arith, bit_and_mask 8 (u16 v))))
    ∙ sw_u8_cong (sw_u8 w (v % 256)) (bit_and (u16 v >>> 8) 0xff) (v / 256 % 256)
        (omega (arith, bit_and_mask 8 (u16 v >>> 8)))

pub sw_u32-eq-emit : (w : Writer) (v : ℕ) → sw_u32 w v ≡ emit w (le_bytes 4 v)
unfolding sw_u32
sw_u32-eq-emit w v = simp (sw_u16-eq-emit, ← emit-append) (ap (emit w) bytes)
  where
    bytes :
        le_bytes 2 (bit_and (u32 v) 0xffff) ++ le_bytes 2 (bit_and (u32 v >>> 16) 0xffff)
        ≡ le_bytes 4 v
    bytes = ground (arith, bit_and_mask 16 (u32 v), bit_and_mask 16 (u32 v >>> 16))

pub sw_u64-eq-emit : (w : Writer) (v : ℕ) → sw_u64 w v ≡ emit w (le_bytes 8 v)
unfolding sw_u64
sw_u64-eq-emit w v = simp (sw_u32-eq-emit, ← emit-append) (ap (emit w) bytes)
  where
    bytes :
        le_bytes 4 (bit_and (u64 v) 0xffff_ffff) ++ le_bytes 4 (bit_and (u64 v >>> 32) 0xffff_ffff)
        ≡ le_bytes 8 v
    bytes = ground (arith, bit_and_mask 32 (u64 v), bit_and_mask 32 (u64 v >>> 32))
