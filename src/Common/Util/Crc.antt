-- ===== src/Common/Util/Crc.antt =====
-- src/common/util.c: `emu_crc32`, the checksum of an array of words.
pub mod Bitwise
pub mod Detects
use aarch.Prelude.{ℕ, zero, suc, ◌+◌, ◌-◌, ◌^◌, ◌%◌, ◌/◌, bit_and, bit_xor, u32, ◌>>>◌}

abbrev pub poly : ℕ
poly = 0xedb88320

-- One bit of the inner loop: the mask is all ones when the lowest bit is set, and else zero.
unfoldable pub crc_bit : ℕ → ℕ
crc_bit crc = bit_xor (crc >>> 1) (bit_and poly (u32 (2 ^ 32 - bit_and crc 1)))

unfoldable pub crc_bits : ℕ → ℕ → ℕ
crc_bits zero crc = crc
crc_bits (suc k) crc = crc_bits k (crc_bit crc)

-- The `b` bytes of a word that are left, the lowest first.
unfoldable pub crc_word : ℕ → ℕ → ℕ → ℕ
crc_word zero v crc = crc
crc_word (suc b) v crc = crc_word b (v >>> 8) (crc_bits 8 (bit_xor crc (bit_and v 0xff)))

-- The words that are left, from the index on.
unfoldable pub crc_words : ℕ → ℕ → (ℕ → ℕ) → ℕ → ℕ
crc_words zero i words crc = crc
crc_words (suc left) i words crc = crc_words left (i + 1) words (crc_word 4 (words i) crc)

-- `~crc`, of 32 bits.
unfoldable pub crc32 : (ℕ → ℕ) → ℕ → ℕ
crc32 words count = 0xffff_ffff - crc_words count 0 words 0xffff_ffff
