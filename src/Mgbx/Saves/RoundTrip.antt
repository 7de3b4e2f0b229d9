-- ===== src/Mgbx/Saves/RoundTrip.antt =====
-- A save state that is loaded again.
use aarch.Prelude.{
  ℕ, ◌^◌, ◌<◌, ◌≡◌, refl, ap, ◌∙◌, arith, u32, u64, Bytes, Option, none, some, List, [], ◌∷◌, ◌++◌,
  length,
}
use aarch.Common.Util.Reader.{Reader, sr_u32, sr_u64}
use aarch.Common.Util.Reader.Holds.{advanced}
use aarch.Common.Util.RoundTrip.{word, double, all_bytes}
use aarch.Common.Util.Parts.{chunk, parts_bytes}
use aarch.Common.Util.Reading.{
  Read, Gives, give-Gives, bind-Gives, fields_held, read_mem_into-Gives, read_mem_into, overlay,
  ◌>>=◌, give,
}
use aarch.Mgbx.State.{Mgbx, Mem, Ppu, Apu, Cart}
use aarch.Mgbx.Saves.Fields.{
  cpu_fields, mem_fields, ppu_fields, timer_fields, joypad_fields, banking_fields,
}
use aarch.Mgbx.Saves.Sound.{
  square_fields, wave_fields, noise_fields, mixer_fields, sequencer_fields,
}
use aarch.Mgbx.Saves.FieldsBack.{
  kept_cpu, kept_mem, kept_ppu, kept_timer, kept_joypad, kept_banking, read_cpu-Gives,
  read_mem-Gives, read_ppu-Gives, read_timer-Gives, read_joypad-Gives, read_banking-Gives,
}
use aarch.Mgbx.Saves.SoundBack.{
  kept_square, kept_wave, kept_noise, kept_mixer, kept_sequencer, read_square-Gives,
  read_wave-Gives, read_noise-Gives, read_mixer-Gives, read_sequencer-Gives,
}
use aarch.Mgbx.Saves.{
  state_magic, state_version, read_header, read_memory, read_video, distrust, read_sound, read_ram,
  read_cart, deserialize, ram_parts,
}

-- The parts of the machine that a blob gives back.
abbrev pub kept_memory : Mem → Mem → Mem
kept_memory mem old =
    kept_mem mem (record old {
      wram = overlay 0x2000 mem.wram old.wram;
      hram = overlay 0x7f mem.hram old.hram;
    })

abbrev pub kept_video : Ppu → Ppu → Ppu
kept_video ppu old =
    kept_ppu ppu
      (record old { vram = overlay 0x2000 ppu.vram old.vram; oam = overlay 0xa0 ppu.oam old.oam })

abbrev pub memory_bytes : Mem → List ℕ
memory_bytes mem = chunk mem.wram 0x2000 ++ (chunk mem.hram 0x7f ++ all_bytes (mem_fields mem))

abbrev pub video_bytes : Ppu → List ℕ
video_bytes ppu = chunk ppu.vram 0x2000 ++ (chunk ppu.oam 0xa0 ++ all_bytes (ppu_fields ppu))

read_memory-Gives :
    (mem old : Mem) → Gives (read_memory old) (memory_bytes mem) (kept_memory mem old)
unfolding read_memory
read_memory-Gives mem old =
    bind-Gives _ (read_mem_into-Gives mem.wram old.wram 0x2000)
      (bind-Gives _ (read_mem_into-Gives mem.hram old.hram 0x7f) (read_mem-Gives mem _))

read_video-Gives : (ppu old : Ppu) → Gives (read_video old) (video_bytes ppu) (kept_video ppu old)
unfolding read_video
read_video-Gives ppu old =
    bind-Gives _ (read_mem_into-Gives ppu.vram old.vram 0x2000)
      (bind-Gives _ (read_mem_into-Gives ppu.oam old.oam 0xa0) (read_ppu-Gives ppu _))

read_header-Gives :
    Gives read_header (all_bytes (word state_magic ∷ word state_version ∷ word 1 ∷ [])) tt
unfolding read_header ◌>>=◌ give
read_header-Gives = record {
  run = λ r room held.
      ap (λ p. (tt, p.1))
        (fields_held (word state_magic ∷ word state_version ∷ word 1 ∷ []) r room held);
}

first : List ℕ → ℕ
first [] = 0
first (x ∷ xs) = x

sr_u32-Gives : (v : ℕ) → Gives sr_u32 (all_bytes (word v ∷ [])) (u32 v)
unfolding first
sr_u32-Gives v = record {
  run = λ r room held. ap (λ p. (first p.0, p.1)) (fields_held (word v ∷ []) r room held);
}

sr_u64-Gives : (v : ℕ) → Gives sr_u64 (all_bytes (double v ∷ [])) (u64 v)
unfolding first
sr_u64-Gives v = record {
  run = λ r room held. ap (λ p. (first p.0, p.1)) (fields_held (double v ∷ []) r room held);
}

abbrev pub kept_sound : Apu → Apu → Apu
kept_sound apu old = distrust (
    kept_sequencer apu (record (kept_mixer apu old) {
      sq0 = kept_square apu.sq0 old.sq0;
      sq1 = kept_square apu.sq1 old.sq1;
      wave = kept_wave apu.wave old.wave;
      noise = kept_noise apu.noise old.noise;
      wave_ram = overlay 16 apu.wave_ram old.wave_ram;
    }))

abbrev pub sound_bytes : Apu → List ℕ
sound_bytes apu =
    all_bytes (mixer_fields apu)
    ++ (all_bytes (square_fields apu.sq0)
        ++ (all_bytes (square_fields apu.sq1)
            ++ (all_bytes (wave_fields apu.wave)
                ++ (all_bytes (noise_fields apu.noise)
                    ++ (chunk apu.wave_ram 16 ++ (all_bytes (sequencer_fields apu) ++ []))))))

read_sound-Gives : (apu old : Apu) → Gives (read_sound old) (sound_bytes apu) (kept_sound apu old)
unfolding read_sound
read_sound-Gives apu old = bind-Gives _ (read_mixer-Gives apu old) (
    bind-Gives _ (read_square-Gives apu.sq0 old.sq0) (
      bind-Gives _ (read_square-Gives apu.sq1 old.sq1) (
        bind-Gives _ (read_wave-Gives apu.wave old.wave) (
          bind-Gives _ (read_noise-Gives apu.noise old.noise) (
            bind-Gives _ (read_mem_into-Gives apu.wave_ram old.wave_ram 16)
              (bind-Gives _ (read_sequencer-Gives apu _) (give-Gives _)))))))

-- The RAM of the blob has the size of the cartridge's, or there is none.
abbrev pub SameRam : Option Bytes → ℕ → Option Bytes → ℕ → Type 0
SameRam none size old old_size = size ≡ 0
SameRam (some ram) size old old_size =
    (0 < size) × (size < 2 ^ 32) × (old_size ≡ size) × ((old_ram : Bytes) × (old ≡ some old_ram))

abbrev pub kept_ram : Option Bytes → ℕ → Option Bytes → Option Bytes
kept_ram none size old = old
kept_ram (some ram) size none = none
kept_ram (some ram) size (some old_ram) = some (overlay size ram old_ram)

read_ram_empty : (old : Cart) (r : Reader) → read_ram old 0 r ≡ (old, r)
unfolding read_ram
read_ram_empty old r = ground arith

-- The RAM is read into the array that stands there.
unfoldable fill : Cart → Bytes → ℕ → Read Cart
fill old old_ram size = do ram ← read_mem_into old_ram size; give (record old { ram = some ram })

read_ram_sized :
    (old : Cart) (old_ram : Bytes) (size : ℕ) (r : Reader)
    → 0 < size
    → size < 2 ^ 32
    → old.ram_size ≡ size
    → old.ram ≡ some old_ram
    → read_ram old (u32 size) r ≡ fill old old_ram size r
unfolding read_ram read_mem_into fill ◌>>=◌ give
read_ram_sized old old_ram size r some_size small e e' = ground arith

fill-Gives :
    (ram old_ram : Bytes) (size : ℕ) (old : Cart)
    → Gives
        (fill old old_ram size)
        (chunk ram size ++ [])
        (record old { ram = some (overlay size ram old_ram) })
unfolding fill
fill-Gives ram old_ram size old = bind-Gives _ (read_mem_into-Gives ram old_ram size) (give-Gives _)

ram_parts_sized :
    (ram : Bytes) (size : ℕ)
    → 0 < size
    → parts_bytes (ram_parts (some ram) size) ≡ chunk ram size ++ []
ram_parts_sized ram size h = ground arith

kept_ram_sized :
    (ram old_ram : Bytes) (size : ℕ) (old : Cart)
    → old.ram ≡ some old_ram
    → record old { ram = some (overlay size ram old_ram) }
      ≡ record old { ram = kept_ram (some ram) size old.ram }
kept_ram_sized ram old_ram size old e = rw e refl

read_ram-Gives :
    (ram : Option Bytes) (size : ℕ) (old : Cart)
    → SameRam ram size old.ram old.ram_size
    → Gives
        (read_ram old (u32 size))
        (parts_bytes (ram_parts ram size))
        (record old { ram = kept_ram ram size old.ram })
read_ram-Gives none size old e = record {
  run = λ r room held.
      let zero_size : u32 size ≡ 0 = omega arith in
      rw zero_size (ground (arith, read_ram_empty old r));
}
read_ram-Gives (some ram) size old (some_size, small, e, (old_ram, e')) =
    rw (ram_parts_sized ram size some_size) (record {
      run = λ r room held.
          read_ram_sized old old_ram size r some_size small e e'
          ∙ (fill-Gives ram old_ram size old).run r room held
          ∙ ap (λ (cart : Cart). (cart, advanced r (length (chunk ram size ++ []))))
              (kept_ram_sized ram old_ram size old e');
    })

abbrev pub kept_cart : Cart → Cart → Cart
kept_cart cart old = record (kept_banking cart old) {
  rtc = overlay 5 cart.rtc old.rtc;
  rtc_latched = overlay 5 cart.rtc_latched old.rtc_latched;
  rtc_divider = u64 cart.rtc_divider;
  ram = kept_ram cart.ram cart.ram_size old.ram;
}

abbrev pub cart_bytes : Cart → List ℕ
cart_bytes cart =
    all_bytes (banking_fields cart)
    ++ (chunk cart.rtc 5
        ++ (chunk cart.rtc_latched 5
            ++ (all_bytes (double cart.rtc_divider ∷ [])
                ++ (all_bytes (word cart.ram_size ∷ [])
                    ++ parts_bytes (ram_parts cart.ram cart.ram_size)))))

read_cart-Gives :
    (cart old : Cart)
    → SameRam cart.ram cart.ram_size old.ram old.ram_size
    → Gives (read_cart old) (cart_bytes cart) (kept_cart cart old)
unfolding read_cart kept_banking
read_cart-Gives cart old same = bind-Gives _ (read_banking-Gives cart old) (
    bind-Gives _ (read_mem_into-Gives cart.rtc old.rtc 5) (
      bind-Gives _ (read_mem_into-Gives cart.rtc_latched old.rtc_latched 5) (
        bind-Gives _ (sr_u64-Gives cart.rtc_divider) (
          bind-Gives _ (sr_u32-Gives cart.ram_size)
            (read_ram-Gives cart.ram cart.ram_size _ same)))))

-- The machine that a blob leaves over another one.
abbrev pub kept : Mgbx → Mgbx → Mgbx
kept gb old = record {
  cpu = kept_cpu gb.cpu old.cpu;
  mem = kept_memory gb.mem old.mem;
  ppu = kept_video gb.ppu old.ppu;
  timer = kept_timer gb.timer old.timer;
  apu = kept_sound gb.apu old.apu;
  joypad = kept_joypad gb.joypad old.joypad;
  cart = kept_cart gb.cart old.cart;
  total_cycles = u64 gb.total_cycles;
}

abbrev pub state_bytes : Mgbx → List ℕ
state_bytes gb =
    all_bytes (word state_magic ∷ word state_version ∷ word 1 ∷ [])
    ++ (all_bytes (cpu_fields gb.cpu)
        ++ (memory_bytes gb.mem
            ++ (video_bytes gb.ppu
                ++ (all_bytes (timer_fields gb.timer)
                    ++ (sound_bytes gb.apu
                        ++ (all_bytes (joypad_fields gb.joypad)
                            ++ (cart_bytes gb.cart
                                ++ (all_bytes (double gb.total_cycles ∷ []) ++ []))))))))

pub deserialize-Gives :
    (gb old : Mgbx)
    → SameRam gb.cart.ram gb.cart.ram_size old.cart.ram old.cart.ram_size
    → Gives (deserialize old) (state_bytes gb) (kept gb old)
unfolding deserialize
deserialize-Gives gb old same = bind-Gives _ read_header-Gives (
    bind-Gives _ (read_cpu-Gives gb.cpu old.cpu) (
      bind-Gives _ (read_memory-Gives gb.mem old.mem) (
        bind-Gives _ (read_video-Gives gb.ppu old.ppu) (
          bind-Gives _ (read_timer-Gives gb.timer old.timer) (
            bind-Gives _ (read_sound-Gives gb.apu old.apu) (
              bind-Gives _ (read_joypad-Gives gb.joypad old.joypad) (
                bind-Gives _ (read_cart-Gives gb.cart old.cart same)
                  (bind-Gives _ (sr_u64-Gives gb.total_cycles) (give-Gives _)))))))))
