-- ===== src/Common/Util/Tests.antt =====
-- The state writer and reader on a buffer of 16 bytes.
use aarch.Prelude.{
  if◌then◌else◌, ◌==◌, ◌≢◌, ◌%◌, ◌≡◌, refl, arith, List, [], ◌∷◌, some, Bytes, zeroed,
}
use aarch.Common.Util.Writer.{Writer, sw_u8, sw_u16, sw_u32, sw_u64, sw_mem}
use aarch.Common.Util.Writer.Overflow.{sw_overflow}
use aarch.Common.Util.Reader.{Reader}
use aarch.Common.Util.RoundTrip.{Field, byte, half, double, write_all, read_all, read_all-write_all}
use aarch.Common.Util.Crc.{crc32, crc_words, crc_word, crc_bits, crc_bit}
use aarch.Common.Util.Crc.Detects.{crc32_detects}

abbrev start : Writer
start = record { buf = some zeroed; cap = 16; pos = 0; overflow = 0 }

abbrev fields : List Field
fields = byte 0x12 ∷ half 0x1_3456 ∷ double 0xdead_beef ∷ []

abbrev reader : Reader
reader = record { buf = λ i. i % 256; size = 6; pos = 3; bad = 0 }

read_all-write_all_example :
    (out : Bytes) × ((write_all start fields).buf ≡ some out)
    × ((write_all start fields).overflow ≡ 0)
    × (read_all (record { buf = out; size = 16; pos = 0; bad = 0 }) fields
        ≡ (0x12 ∷ 0x3456 ∷ 0xdead_beef ∷ [], record { buf = out; size = 16; pos = 11; bad = 0 }))
read_all-write_all_example = read_all-write_all fields start refl (omega arith) (omega arith)

sw_overflow_example :
    let w : Writer = record start { pos = 13 } in
    ((sw_u8 w 1).overflow ≡ 0)
    × ((sw_u16 w 1).overflow ≡ 0)
    × ((sw_u32 w 1).overflow ≡ 1)
    × ((sw_u64 w 1).overflow ≡ 1)
    × ((sw_mem w zeroed 3).overflow ≡ 0)
sw_overflow_example =
    sw_overflow (record start { pos = 13 }) 1 zeroed 3 refl (omega arith) (omega arith)

-- A word of one differs, as does its checksum.
crc32_detects_example : crc32 (λ i. if i == 1 then 1 else 0) 3 ≢ crc32 zeroed 3
crc32_detects_example =
    crc32_detects (λ i. if i == 1 then 1 else 0) zeroed 3 1 (λ i. ground arith) (λ i. omega arith)
      (omega arith) (λ e. omega (arith, e)) (λ j other. ground (arith, other))

-- The CRC of the four zero bytes.
crc32_zero : crc32 zeroed 1 ≡ 0x2144df1c
unfolding crc32 crc_words crc_word crc_bits crc_bit
crc32_zero = refl
