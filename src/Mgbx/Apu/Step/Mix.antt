-- ===== src/Mgbx/Apu/Step/Mix.antt =====
-- The mixer fits its samples into 16 bits.
use aarch.Prelude.{ℕ, ◌+◌, ◌*◌, ◌/◌, ◌≤◌, arith, bit_and, bit_and_mask, ◌>>>◌}
use native.Mathlib.Nat.{mul-le-mul}
use aarch.Mgbx.State.{Apu, Square, Wave, Noise}
use aarch.Mgbx.Apu.Step.{
  mix_l, mix_r, sample_l, sample_r, square_out, wave_out, noise_out, channel_if,
}
use aarch.Mgbx.Apu.Registers.Range.{InRange, SquareInRange, NoiseInRange}

square_out-le : (s : Square) → SquareInRange s → square_out s ≤ 15
square_out-le s r = ground arith

wave_out-le : (w : Wave) → w.sample ≤ 15 → wave_out w ≤ 15
wave_out-le w small = ground arith

noise_out-le : (n : Noise) → NoiseInRange n → noise_out n ≤ 15
noise_out-le n r = ground arith

channel_if-le : (apu : Apu) (k x : ℕ) → x ≤ 15 → channel_if apu k x ≤ 15
channel_if-le apu k x small = ground arith

four_channels :
    (apu : Apu) (i j k l : ℕ)
    → InRange apu
    → apu.wave.sample ≤ 15
    → channel_if apu i (square_out apu.sq0)
        + channel_if apu j (square_out apu.sq1)
        + channel_if apu k (wave_out apu.wave)
        + channel_if apu l (noise_out apu.noise)
      ≤ 60
four_channels apu i j k l r small =
    let s0 = channel_if-le apu i _ (square_out-le apu.sq0 r.sq0) in
    let s1 = channel_if-le apu j _ (square_out-le apu.sq1 r.sq1) in
    let w = channel_if-le apu k _ (wave_out-le apu.wave small) in
    let n = channel_if-le apu l _ (noise_out-le apu.noise r.noise) in omega arith

scaled-le : (m k : ℕ) → m ≤ 60 → k ≤ 7 → m * (k + 1) * 6826 / 100 ≤ 32767
scaled-le m k few loud =
    let product : m * (k + 1) ≤ 60 * 8 = mul-le-mul {m₂ = 8} few (omega arith) in omega arith

-- With the channels in range and a wave sample of four bits, both samples fit an int16_t, whatever
-- NR50 and NR51 hold: the conversion in gb_apu_step loses nothing.
pub sample-le :
    (apu : Apu)
    → InRange apu
    → apu.wave.sample ≤ 15
    → (sample_l apu ≤ 32767) × (sample_r apu ≤ 32767)
unfolding sample_l sample_r mix_l mix_r
sample-le apu r small =
    let left = four_channels apu 4 5 6 7 r small in
    let right = four_channels apu 0 1 2 3 r small in
    (
      scaled-le (mix_l apu) (bit_and (apu.nr50 >>> 4) 7) (ground arith)
          (omega (arith, bit_and_mask 3 (apu.nr50 >>> 4))),
      scaled-le (mix_r apu) (bit_and apu.nr50 7) (ground arith)
          (omega (arith, bit_and_mask 3 apu.nr50)),
    )
