-- ===== src/Common/Registry/Tests.antt =====
-- Probes of small images.
use Prim.Native.String.{String}
use mathlib.Core.List.{Memᴰ}
use aarch.Prelude.{◌==◌, if◌then◌else◌, ◌≡◌, refl, some, Bytes}
use aarch.Common.Registry.Probe.{
  rom_probe, answer, mem_eq, same_bytes, and_also, or_else, snes_checksum_ok, read_le16,
}
use aarch.Common.Registry.Signatures.{marks, first_mark, rom_probe-eq-first_mark}
use aarch.Common.Registry.Names.{answers, rom_probe-Known}

-- Ascending bytes from the first byte of the word at 0 on: 0x80 0x37 0x12 0x40, then zeros.
abbrev n64 : Bytes
n64 i =
    if i == 0
    then 0x80
    else if i == 1
    then 0x37
    else if i == 2
    then 0x12
    else if i == 3
    then 0x40
    else 0

n64_probe : rom_probe (some n64) 4 ≡ some "m64-b"
unfolding rom_probe answer mem_eq same_bytes and_also or_else
n64_probe = refl

-- One byte short of the word.
n64_short : rom_probe (some n64) 3 ≡ some "unknown"
unfolding rom_probe answer mem_eq same_bytes and_also or_else snes_checksum_ok read_le16
n64_short = refl

rom_probe-eq-first_mark_example : rom_probe (some n64) 4 ≡ some (first_mark (marks n64 4))
rom_probe-eq-first_mark_example = rom_probe-eq-first_mark n64 4

rom_probe-Known_example : (name : String) × (rom_probe (some n64) 4 ≡ some name) × Memᴰ name answers
rom_probe-Known_example = rom_probe-Known (some n64) 4
