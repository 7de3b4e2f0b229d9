-- ===== src/Mgbx/Saves.antt =====
-- src/mgbx/mgbx.c: the save states.
pub mod Fields
pub mod Sound
pub mod FieldsBack
pub mod SoundBack
pub mod RoundTrip
pub mod Blob
mod Tests
use aarch.Prelude.{
  ℕ, ◌+◌, ◌*◌, ◌^◌, u8, u32, u64, nonzero, ◌==◌, ltb, if◌then◌else◌, ◌&&◌, ◌||◌, not, Bool, true,
  false, Bytes, zeroed, Option, none, some, List, [], ◌∷◌, ◌++◌,
}
use aarch.Common.Result.{EmuResult, ok, einval, enorom, enospace, ebadstate}
use aarch.Common.Util.{le32}
use aarch.Common.Util.Writer.{Writer}
use aarch.Common.Util.Reader.{Reader, sr_u32, sr_u64, sr_mem}
use aarch.Common.Util.RoundTrip.{byte, half, word, double}
use aarch.Common.Util.Parts.{Part, fields, block, write_parts}
use aarch.Common.Util.Reading.{Read, give, ◌>>=◌, read_mem_into}
use aarch.Mgbx.State.{Mgbx, Mem, Ppu, Apu, Cart}
use aarch.Mgbx.Saves.Fields.{
  cpu_fields, mem_fields, ppu_fields, timer_fields, joypad_fields, banking_fields, read_cpu,
  read_mem, read_ppu, read_timer, read_joypad, read_banking,
}
use aarch.Mgbx.Saves.Sound.{
  square_fields, wave_fields, noise_fields, mixer_fields, sequencer_fields, read_square, read_wave,
  read_noise, read_mixer, read_sequencer,
}

abbrev pub state_magic : ℕ
state_magic = 0x4655_4d45

abbrev pub state_version : ℕ
state_version = 1

-- The cartridge RAM, when there is one and it is not empty.
abbrev pub ram_parts : Option Bytes → ℕ → List Part
ram_parts none size = []
ram_parts (some ram) size = if ltb 0 size then block ram size ∷ [] else []

-- The calls of `mgbx_serialize`.
unfoldable pub state_parts : Mgbx → List Part
state_parts gb =
    fields (word state_magic ∷ word state_version ∷ word 1 ∷ [])
    ∷ fields (cpu_fields gb.cpu)
    ∷ block gb.mem.wram 0x2000
    ∷ block gb.mem.hram 0x7f
    ∷ fields (mem_fields gb.mem)
    ∷ block gb.ppu.vram 0x2000
    ∷ block gb.ppu.oam 0xa0
    ∷ fields (ppu_fields gb.ppu)
    ∷ fields (timer_fields gb.timer)
    ∷ fields (mixer_fields gb.apu)
    ∷ fields (square_fields gb.apu.sq0)
    ∷ fields (square_fields gb.apu.sq1)
    ∷ fields (wave_fields gb.apu.wave)
    ∷ fields (noise_fields gb.apu.noise)
    ∷ block gb.apu.wave_ram 16
    ∷ fields (sequencer_fields gb.apu)
    ∷ fields (joypad_fields gb.joypad)
    ∷ fields (banking_fields gb.cart)
    ∷ block gb.cart.rtc 5
    ∷ block gb.cart.rtc_latched 5
    ∷ fields (double gb.cart.rtc_divider ∷ word gb.cart.ram_size ∷ [])
    ∷ (ram_parts gb.cart.ram gb.cart.ram_size ++ (fields (double gb.total_cycles ∷ []) ∷ []))

-- `mgbx_serialize`
abbrev pub serialize : Mgbx → Writer → Writer
serialize gb w = write_parts w (state_parts gb)

-- The header is checked by the caller.
unfoldable pub read_header : Read (Unit {0})
read_header = do magic ← sr_u32; version ← sr_u32; format ← sr_u32; give tt

unfoldable pub read_memory : Mem → Read Mem
read_memory old = do
  wram ← read_mem_into old.wram 0x2000
  hram ← read_mem_into old.hram 0x7f
  read_mem (record old { wram = wram; hram = hram })

unfoldable pub read_video : Ppu → Read Ppu
read_video old = do
  vram ← read_mem_into old.vram 0x2000
  oam ← read_mem_into old.oam 0xa0
  read_ppu (record old { vram = vram; oam = oam })

-- `if (apu->out_pos > apu->out_cap) apu->out_pos = 0;`
abbrev pub distrust : Apu → Apu
distrust apu = record apu { out_pos = if ltb apu.out_cap apu.out_pos then 0 else apu.out_pos }

unfoldable pub read_sound : Apu → Read Apu
read_sound old = do
  mixed ← read_mixer old
  sq0 ← read_square old.sq0
  sq1 ← read_square old.sq1
  wave ← read_wave old.wave
  noise ← read_noise old.noise
  wave_ram ← read_mem_into old.wave_ram 16
  apu ←
      read_sequencer
        (record mixed { sq0 = sq0; sq1 = sq1; wave = wave; noise = noise; wave_ram = wave_ram })
  give (distrust apu)

-- The cartridge RAM, for the size that the blob names.
unfoldable pub read_ram : Cart → ℕ → Read Cart
read_ram cart size r = elim cart.ram [
  | none ↦ (cart, if ltb 0 size then record r { bad = 1 } else r)
  | some ram ↦
      if size == u32 cart.ram_size && ltb 0 size
      then (let (ram', r') = sr_mem r ram size in (record cart { ram = some ram' }, r'))
      else (cart, if ltb 0 size then record r { bad = 1 } else r)
]

unfoldable pub read_cart : Cart → Read Cart
read_cart old = do
  cart ← read_banking old
  rtc ← read_mem_into cart.rtc 5
  rtc_latched ← read_mem_into cart.rtc_latched 5
  rtc_divider ← sr_u64
  size ← sr_u32
  read_ram (record cart { rtc = rtc; rtc_latched = rtc_latched; rtc_divider = rtc_divider }) size

-- `mgbx_deserialize`, over the machine that stands there.
unfoldable pub deserialize : Mgbx → Read Mgbx
deserialize gb = do
  header ← read_header
  cpu ← read_cpu gb.cpu
  mem ← read_memory gb.mem
  ppu ← read_video gb.ppu
  timer ← read_timer gb.timer
  apu ← read_sound gb.apu
  joypad ← read_joypad gb.joypad
  cart ← read_cart gb.cart
  total_cycles ← sr_u64
  give (record {
    cpu = cpu;
    mem = mem;
    ppu = ppu;
    timer = timer;
    apu = apu;
    joypad = joypad;
    cart = cart;
    total_cycles = total_cycles;
  })

-- `mgbx_state_size`
unfoldable pub state_size : Mgbx → ℕ
state_size gb = (serialize gb (record { buf = none; cap = 0; pos = 0; overflow = 0 })).pos

-- `mgbx_save_state`; `none` is a NULL buffer. The result comes with the buffer.
unfoldable pub save_state : Mgbx → Option Bytes → ℕ → EmuResult × Option Bytes
save_state gb none cap = (einval, none)
save_state gb (some buf) cap = elim gb.cart.rom [
  | none ↦ (enorom, some buf)
  | some rom ↦
      if ltb cap (state_size gb)
      then (enospace, some buf)
      else let w = serialize gb (record { buf = some buf; cap = cap; pos = 0; overflow = 0 }) in
        (if nonzero w.overflow then enospace else ok, w.buf)
]

-- The header of a blob of this core.
abbrev pub known_header : Bytes → Bool
known_header buf = le32 buf 0 == state_magic && (le32 buf 4 == state_version && (le32 buf 8 == 1))

-- `mgbx_load_state`
unfoldable pub load_state : Mgbx → Option Bytes → ℕ → EmuResult × Mgbx
load_state gb none size = (einval, gb)
load_state gb (some buf) size =
    if size == 0
    then (einval, gb)
    else if ltb size 12
    then (ebadstate, gb)
    else if not (known_header buf)
    then (ebadstate, gb)
    else elim gb.cart.rom [
      | none ↦ (enorom, gb)
      | some rom ↦
          let (gb', r) = deserialize gb (record { buf = buf; size = size; pos = 0; bad = 0 }) in
          (if nonzero r.bad then ebadstate else ok, gb')
    ]
