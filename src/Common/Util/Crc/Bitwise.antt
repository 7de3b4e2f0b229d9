-- ===== src/Common/Util/Crc/Bitwise.antt =====
-- The CRC as a linear map on words of 32 bits.
use aarch.Prelude.{
  ℕ, zero, suc, ◌+◌, ◌*◌, ◌^◌, ◌%◌, ◌/◌, ◌<◌, ◌≡◌, ◌⊎◌, refl, ap, sym, ◌∙◌, arith, bit_and, bit_xor,
  inl, inr, bit_and_mask, bit_xor-half, bit_xor_odd, bit_xor-lt_pow, bit_xor_assoc, bit_xor_comm,
  bit_xor-zero, bit_xor-cancel_right, bit_xor_high, bit_xor_split,
}
use native.Mathlib.Nat.{pow-suc}
use aarch.Common.Util.Crc.{poly, crc_bit, crc_bits, crc_word}

crc_bit_even : (x : ℕ) → x % 2 ≡ 0 → crc_bit x ≡ x / 2
unfolding crc_bit
crc_bit_even x e =
    let low : bit_and x 1 ≡ 0 = omega (arith, e, bit_and_mask 1 x) in
    rw low (omega (arith, bit_xor-zero (x / 2)))

crc_bit_odd : (x : ℕ) → x % 2 ≡ 1 → crc_bit x ≡ bit_xor (x / 2) poly
unfolding crc_bit
crc_bit_odd x e =
    let low : bit_and x 1 ≡ 1 = omega (arith, e, bit_and_mask 1 x) in
    rw low (ap (λ (h : ℕ). bit_xor h poly) (omega arith))

parity : (x : ℕ) → (x % 2 ≡ 0) ⊎ (x % 2 ≡ 1)
parity x = ground arith

pub crc_bit-lt : (x : ℕ) → x < 2 ^ 32 → crc_bit x < 2 ^ 32
crc_bit-lt x h = elim (parity x) [
  | inl e ↦ omega (arith, crc_bit_even x e)
  | inr e ↦
      omega (arith, crc_bit_odd x e, bit_xor-lt_pow 32 (x / 2) poly (omega arith) (omega arith))
]

-- The top bit of the result is the bit that was shifted out.
crc_bit_top : (x : ℕ) → x < 2 ^ 32 → crc_bit x / 2 ^ 31 ≡ x % 2
crc_bit_top x h = elim (parity x) [
  | inl e ↦ omega (arith, crc_bit_even x e, e)
  | inr e ↦
      let high : bit_xor (x / 2) poly ≡ 2 ^ 31 + bit_xor (x / 2) 0x6db8_8320 =
        bit_xor_high 31 (x / 2) 0x6db8_8320 (omega arith) (omega arith) in
      omega (
        arith,
        crc_bit_odd x e,
        e,
        high,
        bit_xor-lt_pow 31 (x / 2) 0x6db8_8320 (omega arith) (omega arith),
      )
]

pub crc_bit-injective : (x y : ℕ) → x < 2 ^ 32 → y < 2 ^ 32 → crc_bit x ≡ crc_bit y → x ≡ y
crc_bit-injective x y h k same =
    let low : x % 2 ≡ y % 2 = omega (arith, crc_bit_top x h, crc_bit_top y k, same) in
    elim (parity x) [
      | inl e ↦ omega (arith, crc_bit_even x e, crc_bit_even y (omega (arith, low, e)), same, low)
      | inr e ↦
          let halves : x / 2 ≡ y / 2 =
            bit_xor-cancel_right poly
              (sym (crc_bit_odd x e) ∙ same ∙ crc_bit_odd y (omega (arith, low, e))) in
          omega (arith, halves, low)
    ]

-- The exchange of the two inner operands.
middle : (a b c d : ℕ) → bit_xor (bit_xor a b) (bit_xor c d) ≡ bit_xor (bit_xor a c) (bit_xor b d)
middle a b c d =
    bit_xor_assoc a b (bit_xor c d)
    ∙ ap (λ (t : ℕ). bit_xor a t)
        (sym (bit_xor_assoc b c d)
          ∙ ap (λ (t : ℕ). bit_xor t d) (bit_xor_comm b c)
          ∙ bit_xor_assoc c b d)
    ∙ sym (bit_xor_assoc a c (bit_xor b d))

-- A number whose lowest bit is 0 or 1, and what a bit of the CRC adds for it.
taps : ℕ → ℕ
taps zero = 0
taps (suc bit) = poly

crc_bit-taps : (x : ℕ) → crc_bit x ≡ bit_xor (x / 2) (taps (x % 2))
unfolding taps
crc_bit-taps x = elim (parity x) [
  | inl e ↦ rw (e, bit_xor-zero (x / 2)) (crc_bit_even x e)
  | inr e ↦ rw e (crc_bit_odd x e)
]

taps-bit_xor : (a b : ℕ) → taps (bit_xor a b % 2) ≡ bit_xor (taps (a % 2)) (taps (b % 2))
unfolding taps
taps-bit_xor a b =
    let odd = bit_xor_odd a b in
    elim (parity a) [
      | inl p ↦ elim (parity b) [
        | inl q ↦ let r : bit_xor a b % 2 ≡ 0 = omega (arith, p, q, odd) in rw (p, q, r) refl
        | inr q ↦ let r : bit_xor a b % 2 ≡ 1 = omega (arith, p, q, odd) in rw (p, q, r) refl
      ]
      | inr p ↦ elim (parity b) [
        | inl q ↦ let r : bit_xor a b % 2 ≡ 1 = omega (arith, p, q, odd) in rw (p, q, r) refl
        | inr q ↦ let r : bit_xor a b % 2 ≡ 0 = omega (arith, p, q, odd) in rw (p, q, r) refl
      ]
    ]

crc_bit-bit_xor : (a b : ℕ) → crc_bit (bit_xor a b) ≡ bit_xor (crc_bit a) (crc_bit b)
crc_bit-bit_xor a b =
    rw
      (
        crc_bit-taps (bit_xor a b),
        crc_bit-taps a,
        crc_bit-taps b,
        bit_xor-half a b,
        taps-bit_xor a b,
      )
      (middle (a / 2) (b / 2) (taps (a % 2)) (taps (b % 2)))

crc_bits-bit_xor : (k a b : ℕ) → crc_bits k (bit_xor a b) ≡ bit_xor (crc_bits k a) (crc_bits k b)
unfolding crc_bits
crc_bits-bit_xor zero a b = refl
crc_bits-bit_xor (suc k) a b =
    ap (λ (x : ℕ). crc_bits k x) (crc_bit-bit_xor a b) ∙ crc_bits-bit_xor k (crc_bit a) (crc_bit b)

pub crc_bits-lt : (k x : ℕ) → x < 2 ^ 32 → crc_bits k x < 2 ^ 32
unfolding crc_bits
crc_bits-lt zero x h = h
crc_bits-lt (suc k) x h = crc_bits-lt k (crc_bit x) (crc_bit-lt x h)

pub crc_bits-injective : (k x y : ℕ) → x < 2 ^ 32 → y < 2 ^ 32 → crc_bits k x ≡ crc_bits k y → x ≡ y
unfolding crc_bits
crc_bits-injective zero x y h h' same = same
crc_bits-injective (suc k) x y h h' same =
    crc_bit-injective x y h h'
      (crc_bits-injective k (crc_bit x) (crc_bit y) (crc_bit-lt x h) (crc_bit-lt y h') same)

-- Zeros at the bottom are shifted out.
crc_bits_shift : (k v : ℕ) → crc_bits k (v * 2 ^ k) ≡ v
unfolding crc_bits
crc_bits_shift zero v = omega arith
crc_bits_shift (suc k) v =
    let shift : v * 2 ^ suc k ≡ 2 * (v * 2 ^ k) =
      omega (arith, ap (λ (power : ℕ). v * power) (pow-suc 2 k)) in
    let half : crc_bit (v * 2 ^ suc k) ≡ v * 2 ^ k =
      omega (arith, shift, crc_bit_even (v * 2 ^ suc k) (omega (arith, shift))) in
    ap (λ (x : ℕ). crc_bits k x) half ∙ crc_bits_shift k v

-- The low byte that a word adds to the CRC, apart from the rest of the word.
low_byte :
    (v c : ℕ) → crc_bits 8 (bit_xor c v) ≡ bit_xor (crc_bits 8 (bit_xor c (v % 256))) (v / 256)
low_byte v c =
    let split : bit_xor c v ≡ bit_xor (bit_xor c (v % 256)) (v / 256 * 2 ^ 8) =
      ap (λ (x : ℕ). bit_xor c x) (omega (arith, bit_xor_split 8 (v % 256) (v / 256) (omega arith)))
      ∙ sym (bit_xor_assoc c (v % 256) (v / 256 * 2 ^ 8)) in
    ap (λ (x : ℕ). crc_bits 8 x) split
    ∙ crc_bits-bit_xor 8 (bit_xor c (v % 256)) (v / 256 * 2 ^ 8)
    ∙ ap (λ (x : ℕ). bit_xor (crc_bits 8 (bit_xor c (v % 256))) x) (crc_bits_shift 8 (v / 256))

-- Eight bits, for each byte.
rounds : ℕ → ℕ → ℕ
rounds zero x = x
rounds (suc b) x = rounds b (crc_bits 8 x)

rounds-injective : (b x y : ℕ) → x < 2 ^ 32 → y < 2 ^ 32 → rounds b x ≡ rounds b y → x ≡ y
unfolding rounds
rounds-injective zero x y h h' same = same
rounds-injective (suc b) x y h h' same =
    crc_bits-injective 8 x y h h' (
      rounds-injective b (crc_bits 8 x) (crc_bits 8 y) (crc_bits-lt 8 x h) (crc_bits-lt 8 y h')
        same)

-- The bytes of a word, one after the other, come to the word at once.
crc_word-rounds : (b v c : ℕ) → v < 256 ^ b → crc_word b v c ≡ rounds b (bit_xor c v)
unfolding crc_word rounds
crc_word-rounds zero v c h =
    let none_left : v ≡ 0 = omega arith in rw none_left (sym (bit_xor-zero c))
crc_word-rounds (suc b) v c h =
    let byte : bit_and v 0xff ≡ v % 256 = bit_and_mask 8 v in
    let rest : v / 256 < 256 ^ b = omega (arith, pow-suc 256 b) in
    rw (byte, low_byte v c) (crc_word-rounds b (v / 256) (crc_bits 8 (bit_xor c (v % 256))) rest)

pub crc_word-lt : (b v c : ℕ) → c < 2 ^ 32 → crc_word b v c < 2 ^ 32
unfolding crc_word
crc_word-lt zero v c h = h
crc_word-lt (suc b) v c h =
    crc_word-lt b (v / 256) _
      (crc_bits-lt 8 _ (bit_xor-lt_pow 32 c (bit_and v 0xff) h (omega (arith, bit_and_mask 8 v))))

-- A word of 32 bits that enters a CRC can be told from every other word, and so can the CRC before.
pub crc_word-injective :
    (v v' c c' : ℕ)
    → v < 2 ^ 32
    → v' < 2 ^ 32
    → c < 2 ^ 32
    → c' < 2 ^ 32
    → crc_word 4 v c ≡ crc_word 4 v' c'
    → bit_xor c v ≡ bit_xor c' v'
crc_word-injective v v' c c' h h' k k' same =
    rounds-injective 4 (bit_xor c v) (bit_xor c' v') (bit_xor-lt_pow 32 c v k h)
      (bit_xor-lt_pow 32 c' v' k' h')
      (sym (crc_word-rounds 4 v c (omega arith)) ∙ same ∙ crc_word-rounds 4 v' c' (omega arith))
