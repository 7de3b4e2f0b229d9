-- ===== src/Mgbx/Bus/Ram.antt =====
-- The memory behind the bus: what is written is read back, in WRAM also through its echo.
use aarch.Prelude.{
  ℕ, ◌-◌, ◌%◌, ◌≤◌, ◌≡◌, arith, bit_and_mask, ◌==◌, ltb, leb, if◌then◌else◌, ◌&&◌, ◌||◌, Bool, true,
  some, update,
}
use aarch.Mgbx.State.{Mgbx}
use aarch.Mgbx.Ppu.{vram_read, vram_write, oam_read, oam_write}
use aarch.Mgbx.Bus.{bus_read, bus_write, read_high, write_high}

-- The addresses of VRAM, WRAM with its echo, OAM and HRAM.
abbrev pub is_memory : ℕ → Bool
is_memory addr =
    (leb 0x8000 addr && ltb addr 0xa000)
    || ((leb 0xc000 addr && ltb addr 0xfea0) || (leb 0xff80 addr && leb addr 0xfffe))

-- The two addresses of a byte of WRAM.
abbrev pub same_cell : ℕ → ℕ → Bool
same_cell addr addr' =
    addr == addr'
    || ((leb 0xc000 addr && ltb addr 0xfe00)
        && ((leb 0xc000 addr' && ltb addr' 0xfe00) && (addr % 0x2000 == addr' % 0x2000)))

-- The byte behind a memory address, and the machine with another byte there.
unfoldable pub peek : Mgbx → ℕ → ℕ
peek gb addr =
    if ltb addr 0xa000
    then gb.ppu.vram (addr - 0x8000)
    else if ltb addr 0xfe00
    then gb.mem.wram (addr % 0x2000)
    else if ltb addr 0xfea0
    then gb.ppu.oam (addr - 0xfe00)
    else gb.mem.hram (addr - 0xff80)

unfoldable pub poke : Mgbx → ℕ → ℕ → Mgbx
poke gb addr v =
    let ppu = gb.ppu in
    let mem = gb.mem in
    if ltb addr 0xa000
    then record gb { ppu = record ppu { vram = update ppu.vram (addr - 0x8000) v } }
    else if ltb addr 0xfe00
    then record gb { mem = record mem { wram = update mem.wram (addr % 0x2000) v } }
    else if ltb addr 0xfea0
    then record gb { ppu = record ppu { oam = update ppu.oam (addr - 0xfe00) v } }
    else record gb { mem = record mem { hram = update mem.hram (addr - 0xff80) v } }

read_high-hram :
    (gb : Mgbx) (addr : ℕ)
    → 0xff80 ≤ addr
    → addr ≤ 0xfffe
    → read_high gb addr ≡ some (gb.mem.hram (addr - 0xff80))
unfolding read_high
read_high-hram gb addr low high = ground arith

write_high-hram :
    (gb : Mgbx) (addr v : ℕ)
    → 0xff80 ≤ addr
    → addr ≤ 0xfffe
    → write_high gb addr v
      ≡ some (record gb { mem = record (gb.mem) { hram = update gb.mem.hram (addr - 0xff80) v } })
unfolding write_high
write_high-hram gb addr v low high = ground arith

pub bus_read-peek :
    (gb : Mgbx) (addr : ℕ) → is_memory addr ≡ true → bus_read gb addr ≡ some (peek gb addr)
unfolding bus_read vram_read oam_read peek
bus_read-peek gb addr here = ground (arith, read_high-hram gb addr, bit_and_mask 13 addr)

pub bus_write-poke :
    (gb : Mgbx) (addr v : ℕ) → is_memory addr ≡ true → bus_write gb addr v ≡ some (poke gb addr v)
unfolding bus_write vram_write oam_write poke
bus_write-poke gb addr v here = ground (arith, write_high-hram gb addr v, bit_and_mask 13 addr)

pub peek-poke :
    (gb : Mgbx) (addr addr' v : ℕ)
    → is_memory addr ≡ true
    → is_memory addr' ≡ true
    → peek (poke gb addr v) addr' ≡ (if same_cell addr addr' then v else peek gb addr')
unfolding peek poke
peek-poke gb addr addr' v here there = ground arith

-- A write to memory stores inside its array, and any memory address then reads the byte when it
-- names the same cell, the other address of WRAM included, and what it read before when not.
pub bus_read-bus_write :
    (gb : Mgbx) (addr addr' v : ℕ)
    → is_memory addr ≡ true
    → is_memory addr' ≡ true
    → (gb' : Mgbx) × (bus_write gb addr v ≡ some gb')
      × (bus_read gb' addr' ≡ (if same_cell addr addr' then some v else bus_read gb addr'))
bus_read-bus_write gb addr addr' v here there = (
  poke gb addr v,
  bus_write-poke gb addr v here,
  ground (
    arith,
    bus_read-peek (poke gb addr v) addr' there,
    bus_read-peek gb addr' there,
    peek-poke gb addr addr' v here there,
  ),
)
