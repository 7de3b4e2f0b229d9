-- ===== src/Mgbx/Apu/Registers/ReadBack.antt =====
-- What a register reads after a write.
use aarch.Prelude.{
  ℕ, ◌+◌, ◌*◌, ◌/◌, ◌%◌, ◌<◌, ◌≡◌, ◌≢◌, refl, arith, bit_and, bit_or, bit_and_pow, u8, ◌<<<◌, ◌>>>◌,
  ==_iff, all_below, all_below_sound, ◌&&◌, nonzero, ◌==◌, of_bool, if◌then◌else◌, true,
}
use aarch.Mgbx.State.{Apu}
use aarch.Mgbx.Apu.{trigger_square, trigger_sweep, chan_trigger_wave, chan_trigger_noise}
use aarch.Mgbx.Apu.Registers.{
  apu_read, apu_write, write_register, write_sweep, write_duty, write_envelope, write_square_high,
  write_wave_dac, write_wave_high, write_noise_envelope, write_polynomial, write_noise_control,
}

-- `addr` reads `x` after `v` was written to it.
abbrev pub ReadsBack : Apu → ℕ → ℕ → ℕ → Type 0
ReadsBack apu addr v x = apu_read (apu_write apu addr v) addr ≡ x

-- The five fields of an NRx2 register in one byte, and those of NR43.
abbrev packed : ℕ → ℕ
packed v =
    let direction : ℕ = if nonzero (of_bool (nonzero (bit_and v 8))) then 8 else 0 in
    u8 (bit_or (bit_or (bit_and (v >>> 4) 0x0f <<< 4) direction) (bit_and v 7))

packed_table : all_below 256 (λ v. packed v == v) ≡ true
unfolding all_below
packed_table = refl

packed_lem : (v : ℕ) → v < 256 → packed v ≡ v
packed_lem v small = (==_iff _ _).0 (all_below_sound 256 _ v packed_table small)

abbrev sweep_byte : ℕ → ℕ
sweep_byte v =
    let negate : ℕ = if nonzero (of_bool (nonzero (bit_and v 8))) then 8 else 0 in
    u8 (bit_or (bit_or (bit_and (v >>> 4) 7) negate) 0x80)

bytes_table :
    all_below 256 (λ v.
      u8 (bit_or (bit_and (v >>> 6) 3 <<< 6) 0x3f) == v / 64 * 64 + 0x3f
      && (u8 (bit_or (bit_and (v >>> 5) 3 <<< 5) 0x9f) == v / 32 % 4 * 32 + 0x9f
          && sweep_byte v == 0x80 + v / 8 % 2 * 8 + v / 16 % 8))
    ≡ true
unfolding all_below
bytes_table = refl

-- The three other bytes that are put together, in numbers.
bytes_lem :
    (v : ℕ)
    → v < 256
    → (u8 (bit_or (bit_and (v >>> 6) 3 <<< 6) 0x3f) ≡ v / 64 * 64 + 0x3f)
      × (u8 (bit_or (bit_and (v >>> 5) 3 <<< 5) 0x9f) ≡ v / 32 % 4 * 32 + 0x9f)
      × (sweep_byte v ≡ 0x80 + v / 8 % 2 * 8 + v / 16 % 8)
bytes_lem v small =
    let row = all_below_sound 256 _ v bytes_table small in
    ground (
      arith,
      row,
      ==_iff (u8 (bit_or (bit_and (v >>> 6) 3 <<< 6) 0x3f)) (v / 64 * 64 + 0x3f),
      ==_iff (u8 (bit_or (bit_and (v >>> 5) 3 <<< 5) 0x9f)) (v / 32 % 4 * 32 + 0x9f),
      ==_iff (sweep_byte v) (0x80 + v / 8 % 2 * 8 + v / 16 % 8),
    )

-- While the APU is on, a register reads what was written under its mask: NRx1 of the squares keeps
-- the duty, NRx2, NR43, NR50 and NR51 all of the byte, NRx4 the length bit, also when the write
-- triggers the channel, NR30 and NR32 their fields. NR10 is the exception: the period comes back in
-- its low bits and the shift not at all.
pub apu_read-apu_write :
    (apu : Apu) (v : ℕ)
    → apu.enabled ≢ 0
    → v < 256
    → ReadsBack apu 0xff10 v (0x80 + v / 8 % 2 * 8 + v / 16 % 8)
      × ReadsBack apu 0xff11 v (v / 64 * 64 + 0x3f)
      × ReadsBack apu 0xff12 v v
      × ReadsBack apu 0xff14 v (0xbf + v / 64 % 2 * 64)
      × ReadsBack apu 0xff16 v (v / 64 * 64 + 0x3f)
      × ReadsBack apu 0xff17 v v
      × ReadsBack apu 0xff19 v (0xbf + v / 64 % 2 * 64)
      × ReadsBack apu 0xff1a v (v / 128 * 128 + 0x7f)
      × ReadsBack apu 0xff1c v (v / 32 % 4 * 32 + 0x9f)
      × ReadsBack apu 0xff1e v (0xbf + v / 64 % 2 * 64)
      × ReadsBack apu 0xff21 v v
      × ReadsBack apu 0xff22 v v
      × ReadsBack apu 0xff23 v (0xbf + v / 64 % 2 * 64)
      × ReadsBack apu 0xff24 v v
      × ReadsBack apu 0xff25 v v
unfolding apu_read apu_write write_register write_sweep write_duty write_envelope write_square_high
    write_wave_dac write_wave_high write_noise_envelope write_polynomial write_noise_control
    trigger_square trigger_sweep chan_trigger_wave chan_trigger_noise
apu_read-apu_write apu v on small =
    let byte = packed_lem v small in
    let bytes = bytes_lem v small in
    let length = bit_and_pow 6 v in
    (
      ground (arith, bytes.2),
      ground (arith, bytes.0),
      ground (arith, byte),
      ground (arith, length),
      ground (arith, bytes.0),
      ground (arith, byte),
      ground (arith, length),
      ground (arith, bit_and_pow 7 v),
      ground (arith, bytes.1),
      ground (arith, length),
      ground (arith, byte),
      ground (arith, byte),
      ground (arith, length),
      ground arith,
      ground arith,
    )
