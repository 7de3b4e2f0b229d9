-- ===== src/Common/Util/Crc/Detects.antt =====
-- What the CRC tells apart.
use aarch.Prelude.{
  ℕ, zero, suc, ◌+◌, ◌^◌, ◌<◌, ◌≤◌, ◌≡◌, ◌≢◌, ◌⊎◌, sym, ap, ◌∙◌, arith, bit_xor, inl, inr,
  bit_xor-cancel_right, bit_xor-cancel_left,
}
use aarch.Common.Util.Crc.{crc_word, crc_words, crc32}
use aarch.Common.Util.Crc.Bitwise.{crc_word-lt, crc_word-injective}

-- Every word has 32 bits.
abbrev pub IsWords : (ℕ → ℕ) → Type 0
IsWords words = (i : ℕ) → words i < 2 ^ 32

crc_words-lt :
    (left at : ℕ) (words : ℕ → ℕ) (c : ℕ) → c < 2 ^ 32 → crc_words left at words c < 2 ^ 32
unfolding crc_words
crc_words-lt zero at words c h = h
crc_words-lt (suc left) at words c h =
    crc_words-lt left (at + 1) words (crc_word 4 (words at) c) (crc_word-lt 4 (words at) c h)

module _ {words words' : ℕ → ℕ} (h : IsWords words) (h' : IsWords words') where
  -- The same words after two CRCs leave them apart.
  same_tail :
      (left at c c' : ℕ)
      → ((j : ℕ) → at ≤ j → words j ≡ words' j)
      → c < 2 ^ 32
      → c' < 2 ^ 32
      → crc_words left at words c ≡ crc_words left at words' c'
      → c ≡ c'
  unfolding crc_words
  same_tail zero at c c' agree k k' same = same
  same_tail (suc left) at c c' agree k k' same =
      let next =
        same_tail left (at + 1) (crc_word 4 (words at) c) (crc_word 4 (words' at) c')
          (λ j low. agree j (omega arith)) (crc_word-lt 4 (words at) c k)
          (crc_word-lt 4 (words' at) c' k') same in
      let entered = crc_word-injective (words at) (words' at) c c' (h at) (h' at) k k' next in
      bit_xor-cancel_right (words' at)
        (ap (λ (x : ℕ). bit_xor c x) (sym (agree at (omega arith))) ∙ entered)

  one_word :
      (left at i c : ℕ)
      → at ≤ i
      → i < at + left
      → ((j : ℕ) → j ≢ i → words j ≡ words' j)
      → c < 2 ^ 32
      → crc_words left at words c ≡ crc_words left at words' c
      → words i ≡ words' i
  unfolding crc_words
  one_word zero at i c low high others k same = absurd (omega arith)
  one_word (suc left) at i c low high others k same =
      let place : (at ≡ i) ⊎ (at < i) = ground arith in
      elim place [
        | inl e ↦
            let tail =
              same_tail left (at + 1) (crc_word 4 (words at) c) (crc_word 4 (words' at) c)
                (λ j past. others j (λ q. omega (arith, q, e, past))) (crc_word-lt 4 (words at) c k)
                (crc_word-lt 4 (words' at) c k) same in
            rw (sym e) (
              bit_xor-cancel_left c
                (crc_word-injective (words at) (words' at) c c (h at) (h' at) k k tail))
        | inr past ↦
            one_word left (at + 1) i (crc_word 4 (words at) c) (omega arith) (omega arith) others
              (crc_word-lt 4 (words at) c k)
              (same
                ∙ ap (λ (x : ℕ). crc_words left (at + 1) words' (crc_word 4 x c))
                    (sym (others at (λ q. omega (arith, q, past)))))
      ]

-- Two arrays of 32-bit words that differ in one word, among the `count` that are read, have different
-- CRCs.
pub crc32_detects :
    (words words' : ℕ → ℕ) (count i : ℕ)
    → IsWords words
    → IsWords words'
    → i < count
    → words i ≢ words' i
    → ((j : ℕ) → j ≢ i → words j ≡ words' j)
    → crc32 words count ≢ crc32 words' count
unfolding crc32
crc32_detects words words' count i h h' inside differ others same = differ (
    one_word h h' count 0 i 0xffff_ffff (omega arith) (omega arith) others (omega arith) (
      omega (
        arith,
        same,
        crc_words-lt count 0 words 0xffff_ffff (omega arith),
        crc_words-lt count 0 words' 0xffff_ffff (omega arith),
      )))
