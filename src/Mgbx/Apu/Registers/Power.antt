-- ===== src/Mgbx/Apu/Registers/Power.antt =====
-- NR52 and the gate in front of the registers.
use aarch.Prelude.{
  ℕ, ◌≡◌, refl, arith, ◌≤◌, ◌<◌, bit_and_pow, ◌==◌, ◌&&◌, Bool, not, true, List, [], ◌∷◌,
}
use aarch.Mgbx.State.{Apu}
use aarch.Mgbx.Apu.{zero_square, zero_wave, zero_noise}
use aarch.Mgbx.Apu.Registers.{
  apu_read, read_power, apu_write, write_register, write_power, in_wave_ram,
}

-- Writes of pairs of an address and a byte, one after the other.
abbrev pub write_all : Apu → List (ℕ × ℕ) → Apu
write_all apu [] = apu
write_all apu (w ∷ ws) = write_all (apu_write apu w.0 w.1) ws

-- No address is NR52 or in wave RAM.
abbrev pub gated : List (ℕ × ℕ) → Bool
gated [] = true
gated (w ∷ ws) = not (w.0 == 0xff26) && (not (in_wave_ram w.0) && gated ws)

write_all-off :
    (apu : Apu) (ws : List (ℕ × ℕ)) → apu.enabled ≡ 0 → gated ws ≡ true → write_all apu ws ≡ apu
unfolding apu_write
write_all-off apu [] off h = refl
write_all-off apu (w ∷ ws) off h =
    let same : apu_write apu w.0 w.1 ≡ apu = ground arith in
    rw same (write_all-off apu ws off (ground arith))

abbrev pub silenced : Apu → ℕ → Apu
silenced apu on = record apu {
  enabled = on;
  sq0 = zero_square;
  sq1 = zero_square;
  wave = zero_wave;
  noise = zero_noise;
}

write_off : (apu : Apu) (off : ℕ) → off < 128 → apu_write apu 0xff26 off ≡ silenced apu 0
unfolding apu_write write_register write_power
write_off apu off small = ground (arith, bit_and_pow 7 off)

-- A byte below 128 to NR52 turns the APU off: NR52 reads 0x70, and writes of the other registers do
-- nothing, until a byte from 128 up turns it on with every channel cleared, and the frame sequencer
-- at its start; NR50, NR51 and wave RAM are kept.
pub power_cycle :
    (apu : Apu) (off on : ℕ) (ws : List (ℕ × ℕ))
    → off < 128
    → 128 ≤ on
    → on < 256
    → gated ws ≡ true
    → let quiet = write_all (apu_write apu 0xff26 off) ws in
      (apu_read quiet 0xff26 ≡ 0x70)
      × (apu_write quiet 0xff26 on
          ≡ record (silenced apu 1) { frame_seq_timer = 0; frame_seq_step = 0 })
unfolding apu_read read_power apu_write write_register write_power
power_cycle apu off on ws low high byte h =
    rw (write_off apu off low, write_all-off (silenced apu 0) ws refl h)
      (refl, ground (arith, bit_and_pow 7 on))
