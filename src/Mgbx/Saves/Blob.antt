-- ===== src/Mgbx/Saves/Blob.antt =====
-- The blobs of `mgbx_save_state`: their size, and that loading one gives the machine back.
use mathlib.Core.List.{append_assoc, append-nil}
use mathlib.Core.Path.{subst}
use aarch.Prelude.{
  branches, loaded, ℕ, ◌+◌, ◌^◌, ◌≤◌, ◌<◌, ◌≡◌, refl, ap, ◌∙◌, arith, ◌==◌, ltb, true, false, Bytes,
  IsBytes, Option, none, some, List, [], ◌∷◌, ◌++◌, length,
}
use aarch.Common.Result.{ok, enospace}
use aarch.Common.Util.{le32}
use aarch.Common.Util.Writer.{Writer}
use aarch.Common.Util.Writer.Emit.{emit}
use aarch.Common.Util.Writer.Overflow.{pos-emit}
use aarch.Common.Util.Writer.Content.{Holds, Wrote, emit-Wrote}
use aarch.Common.Util.Reader.{Reader}
use aarch.Common.Util.Reading.{Gives}
use aarch.Common.Util.RoundTrip.{word, double, all_bytes, Holds-append_left}
use aarch.Common.Util.Parts.{
  Part, fields, parts_bytes, parts_size, HoldBytes, write_parts-eq-emit, parts_bytes-AllBytes,
  length-parts_bytes, parts_bytes-append, parts_size-append,
}
use aarch.Mgbx.State.{Mgbx, Cart}
use aarch.Mgbx.Machine.Valid.{IsValid}
use aarch.Mgbx.Saves.Fields.{
  cpu_fields, mem_fields, ppu_fields, timer_fields, joypad_fields, banking_fields,
}
use aarch.Mgbx.Saves.Sound.{
  square_fields, wave_fields, noise_fields, mixer_fields, sequencer_fields,
}
use aarch.Mgbx.Saves.RoundTrip.{SameRam, kept, state_bytes, deserialize-Gives}
use aarch.Mgbx.Saves.{
  state_magic, state_version, ram_parts, state_parts, serialize, deserialize, state_size,
  save_state, known_header, load_state,
}

state_bytes-eq-parts : (gb : Mgbx) → state_bytes gb ≡ parts_bytes (state_parts gb)
unfolding state_parts
state_bytes-eq-parts gb = simp (parts_bytes-append, append_assoc, append-nil) refl

-- The bytes of the RAM in a blob.
abbrev pub ram_bytes : Cart → ℕ
ram_bytes cart = parts_size (ram_parts cart.ram cart.ram_size)

state_parts_size : (gb : Mgbx) → parts_size (state_parts gb) ≡ 16875 + ram_bytes gb.cart
unfolding state_parts cpu_fields mem_fields ppu_fields timer_fields joypad_fields banking_fields
    square_fields wave_fields noise_fields mixer_fields sequencer_fields
state_parts_size gb = omega (
  arith,
  parts_size-append (ram_parts gb.cart.ram gb.cart.ram_size)
      (fields (double gb.total_cycles ∷ []) ∷ []),
)

-- A RAM that a 32-bit size can name.
abbrev pub SmallRam : Mgbx → Type 0
SmallRam gb = gb.cart.ram_size < 2 ^ 32

ram_bytes-le : (ram : Option Bytes) (size : ℕ) → parts_size (ram_parts ram size) ≤ size
ram_bytes-le none size = omega arith
ram_bytes-le (some ram) size =
    branches (λ ps. parts_size ps ≤ size) (ltb 0 size) (λ _. omega arith) (λ _. omega arith)

ram-HoldBytes :
    (ram : Option Bytes) (size : ℕ) (rest : List Part)
    → ((r : Bytes) → ram ≡ some r → IsBytes r)
    → HoldBytes rest
    → HoldBytes (ram_parts ram size ++ rest)
ram-HoldBytes none size rest h k = k
ram-HoldBytes (some ram) size rest h k =
    branches (λ ps. HoldBytes (ps ++ rest)) (ltb 0 size) (λ _. (h ram refl, k)) (λ _. k)

state_parts-HoldBytes : (gb : Mgbx) → IsValid gb → HoldBytes (state_parts gb)
unfolding state_parts
state_parts-HoldBytes gb v =
    let ram =
      ram-HoldBytes gb.cart.ram gb.cart.ram_size (fields (double gb.total_cycles ∷ []) ∷ [])
        v.cart.ram_bytes tt in
    (
      v.mem.wram,
      (
        v.mem.hram,
        (
          v.ppu.vram,
          (v.ppu.oam, (v.apu.wave_ram, (v.cart.rtc_bytes, (v.cart.latched_bytes, ram)))),
        ),
      ),
    )

state_length : (gb : Mgbx) → length (parts_bytes (state_parts gb)) ≡ 16875 + ram_bytes gb.cart
state_length gb = length-parts_bytes (state_parts gb) ∙ state_parts_size gb

-- The state of a valid machine takes 16,875 bytes and those of the cartridge's RAM, whose size is
-- below 2 ^ 32.
pub state_size_lem :
    (gb : Mgbx) → IsValid gb → SmallRam gb → state_size gb ≡ 16875 + ram_bytes gb.cart
unfolding state_size
state_size_lem gb v small =
    let w : Writer = record { buf = none; cap = 0; pos = 0; overflow = 0 } in
    let size = state_length gb in
    let ram = ram_bytes-le gb.cart.ram gb.cart.ram_size in
    ap (λ (w' : Writer). w'.pos)
      (write_parts-eq-emit (state_parts gb) w (state_parts-HoldBytes gb v)
        (ground (arith, size, ram)))
    ∙ (omega (arith, pos-emit w (parts_bytes (state_parts gb)), size, ram))

-- The blob in the buffer.
abbrev Blob : Mgbx → Bytes → Type 0
Blob gb out = Holds out 0 (parts_bytes (state_parts gb))

serialize-Wrote :
    (gb : Mgbx) (buf : Bytes) (cap : ℕ)
    → IsValid gb
    → SmallRam gb
    → state_size gb ≤ cap
    → cap < 2 ^ 64
    → let w : Writer = record { buf = some buf; cap = cap; pos = 0; overflow = 0 } in
      (out : Bytes) × ((serialize gb w).buf ≡ some out)
      × ((serialize gb w).overflow ≡ 0)
      × Blob gb out
serialize-Wrote gb buf cap v small fits low =
    let w : Writer = record { buf = some buf; cap = cap; pos = 0; overflow = 0 } in
    let size = state_length gb in
    let held = state_parts-HoldBytes gb v in
    let room : length (parts_bytes (state_parts gb)) ≤ cap =
      omega (arith, size, state_size_lem gb v small) in
    let done : Wrote buf w (parts_bytes (state_parts gb)) (emit w (parts_bytes (state_parts gb))) =
      emit-Wrote (parts_bytes (state_parts gb)) {w = w} {b = buf} refl
        (parts_bytes-AllBytes (state_parts gb) held) (omega arith) low in
    rw (write_parts-eq-emit (state_parts gb) w held (ground arith))
      (done.out, done.buf, done.overflow, done.held)

header_known :
    (out : Bytes)
    → Holds out 0 (all_bytes (word state_magic ∷ word state_version ∷ word 1 ∷ []))
    → known_header out ≡ true
unfolding le32
header_known out h =
    rw
      (
        h.0, h.1.0, h.1.1.0, h.1.1.1.0, h.1.1.1.1.0, h.1.1.1.1.1.0, h.1.1.1.1.1.1.0,
        h.1.1.1.1.1.1.1.0, h.1.1.1.1.1.1.1.1.0, h.1.1.1.1.1.1.1.1.1.0, h.1.1.1.1.1.1.1.1.1.1.0,
        h.1.1.1.1.1.1.1.1.1.1.1.0,
      )
      refl

Blob-header : (gb : Mgbx) (out : Bytes) → Blob gb out → known_header out ≡ true
unfolding state_parts
Blob-header gb out h =
    header_known out (
      Holds-append_left out 0 (all_bytes (word state_magic ∷ word state_version ∷ word 1 ∷ [])) _ h)

Blob-read :
    (gb old : Mgbx) (out : Bytes) (cap : ℕ)
    → SameRam gb.cart.ram gb.cart.ram_size old.cart.ram old.cart.ram_size
    → length (parts_bytes (state_parts gb)) ≤ cap
    → cap < 2 ^ 64
    → Blob gb out
    → let n = length (parts_bytes (state_parts gb)) in
      deserialize old (record { buf = out; size = cap; pos = 0; bad = 0 })
      ≡ (kept gb old, record { buf = out; size = cap; pos = n; bad = 0 })
Blob-read gb old out cap same fits low h =
    let read : Gives (deserialize old) (parts_bytes (state_parts gb)) (kept gb old) =
      subst (λ xs. Gives (deserialize old) xs (kept gb old)) (state_bytes-eq-parts gb)
        (deserialize-Gives gb old same) in
    let r : Reader = record { buf = out; size = cap; pos = 0; bad = 0 } in
    let place : 0 + length (parts_bytes (state_parts gb)) ≡ length (parts_bytes (state_parts gb)) =
      omega arith in
    read.run r (omega arith, low) h ∙ ap (λ (n : ℕ). (kept gb old, record r { pos = n })) place

-- A valid machine, whose RAM size is below 2 ^ 32, is saved in a buffer of at least its state size
-- and below 2 ^ 64 bytes, and loading the blob into any valid machine whose cartridge has RAM of the
-- same size, or none as the saved one, succeeds and gives back every field that is saved, at its
-- width, over that machine.
pub load_state-save_state :
    (gb old : Mgbx) (buf : Bytes) (cap : ℕ)
    → IsValid gb
    → IsValid old
    → SmallRam gb
    → SameRam gb.cart.ram gb.cart.ram_size old.cart.ram old.cart.ram_size
    → state_size gb ≤ cap
    → cap < 2 ^ 64
    → (out : Bytes) × (save_state gb (some buf) cap ≡ (ok, some out))
      × (load_state old (some out) cap ≡ (ok, kept gb old))
unfolding save_state load_state
load_state-save_state gb old buf cap v v' small same fits low =
    let (out, e, e', blob) = serialize-Wrote gb buf cap v small fits low in
    let size = state_size_lem gb v small in
    let length = state_length gb in
    let room : ltb cap (state_size gb) ≡ false = ground arith in
    let header = Blob-header gb out blob in
    let long : (cap == 0) ≡ false = ground (arith, size) in
    let long' : ltb cap 12 ≡ false = ground (arith, size) in
    let read = Blob-read gb old out cap same (omega (arith, size, length)) low blob in
    (
      out,
      loaded (λ p. p ≡ (ok, some out)) _ _ gb.cart.rom v.cart.rom (rw (room, e, e') refl),
      rw (long, long', header)
          (loaded (λ p. p ≡ (ok, kept gb old)) _ _ old.cart.rom v'.cart.rom (rw read refl)),
    )

-- A save of a valid machine, whose RAM size is below 2 ^ 32, into a buffer shorter than 16,875 bytes
-- and the cartridge's RAM returns EMU_ENOSPACE and leaves the buffer as it was.
pub save_state-refuses :
    (gb : Mgbx) (buf : Bytes) (cap : ℕ)
    → IsValid gb
    → SmallRam gb
    → cap < 16875 + ram_bytes gb.cart
    → save_state gb (some buf) cap ≡ (enospace, some buf)
unfolding save_state
save_state-refuses gb buf cap v small short =
    let room : ltb cap (state_size gb) ≡ true = ground (arith, state_size_lem gb v small) in
    loaded (λ p. p ≡ (enospace, some buf)) _ _ gb.cart.rom v.cart.rom (rw room refl)
