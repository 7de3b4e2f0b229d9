-- ===== src/Common/Registry.antt =====
-- src/common/registry.c: the table of the cores and their status. The accessor of an entry's vtable
-- depends on what the build compiles, and is left out.
pub mod Probe
pub mod Signatures
pub mod Names
mod Tests
use Prim.Native.String.{String}
use aarch.Prelude.{List, [], ◌∷◌}

pub data CoreStatus : Type 0 where
  working partial skeleton : CoreStatus

pub record CoreInfo : Type 0 where
  pub name : String
  pub status : CoreStatus
  pub note : String

abbrev pub registry : List CoreInfo
registry =
    record {
      name = "mgbx";
      status = working;
      note = "Game Boy/DMG: SM83 CPU, MBC1/2/3/5+RTC, dot PPU, PSG, save states";
    }
    ∷ record {
      name = "beatle-nes-redux";
      status = working;
      note = "NES: 6502, mappers 0/1/2/3/4, dot PPU, APU+DMC, save states";
    }
    ∷ record {
      name = "supersnes";
      status = partial;
      note = "SNES: 65C816, LoROM/HiROM, DMA+HDMA, PPU modes 0/1/7; S-SMP/DSP stub";
    }
    ∷ record {
      name = "mgbax";
      status = working;
      note = "GBA: ARM7TDMI+Thumb, HLE BIOS, PPU modes 0-4, DMA, PSG+FIFO audio";
    }
    ∷ record {
      name = "finalburn";
      status = partial;
      note = "Genesis: 68000 subset + Z80, VDP mode-4, PSG, YM2612 subset; see README";
    }
    ∷ record {
      name = "beatle-psx";
      status = partial;
      note = "PlayStation: R3000A+GTE+GPU+DMA+timers, PS-X EXE loader; no CD/SPU";
    }
    ∷ record {
      name = "mds-a";
      status = partial;
      note =
          "Nintendo DS: ARM946E-S + ARM7TDMI (ARM+Thumb), direct-boot from .nds header, timers, IPC, IRQ, full 2D compositing per engine (text/affine/extended BGs, OBJs, priorities, master brightness); no 3D, blending/windows, sound, touch or card bus";
    }
    ∷ record {
      name = "ms-32";
      status = partial;
      note =
          "Sega 32X: SH-2 x2 + adapter + COMM + VDP packed-pixel over finalburn; RLE/autosprites/PWM pending";
    }
    ∷ record {
      name = "supersaturn";
      status = partial;
      note =
          "Sega Saturn: SH-2 x2, SCU DMA+IRQ+timers, VDP1 sprites/polys, SMPC INTBACK, IP.BIN boot; VDP2/SCSP/CD stub";
    }
    ∷ record {
      name = "m64-b";
      status = partial;
      note =
          "Nintendo 64: R4300i (MIPS III) + CP0/exceptions, PI DMA, SI, VI framebuffer output, no-PIF boot model; RSP, audio and TLB are stubs";
    }
    ∷ record {
      name = "supercastpro";
      status = partial;
      note =
          "Dreamcast: SH-4 (integer + SP FPU subset), TMU, direct-boot from IP.BIN, PVR2 scanout + Tile Accelerator subset (flat-shaded strips/sprites), AICA ARM7 + PCM16/8 voices; no TA textures, alpha, ADPCM/DSP, GD-ROM or Maple";
    }
    ∷ []

-- `emu_core_status_str`; no other value is passed.
unfoldable status_str : CoreStatus → String
status_str working = "working"
status_str partial = "partial"
status_str skeleton = "skeleton"
