-- ===== src/Mgbx/Bus.antt =====
-- src/mgbx/mem.c: the address decoding of the Game Boy.
pub mod Ram
pub mod Bounds
mod Tests
use aarch.Prelude.{
  ℕ, ◌+◌, ◌-◌, ◌*◌, bit_and, bit_or, u8, u16, ◌==◌, ltb, leb, if◌then◌else◌, ◌&&◌, ◌||◌, Bool,
  Bytes, Option, none, some, load, store,
}
use mathlib.Core.Option
use aarch.Mgbx.State.{Mgbx, Mem, Cart, Ppu}
use aarch.Mgbx.Cart.{cart_read, cart_write}
use aarch.Mgbx.Ppu.{vram_read, vram_write, oam_read, oam_write, ppu_read_reg, ppu_write_reg}
use aarch.Mgbx.Joypad.{joypad_read, joypad_write}
use aarch.Mgbx.Timer.{timer_read, timer_write}
use aarch.Mgbx.Apu.Registers.{apu_read, apu_write}

-- The addresses from 0xff00 on.
unfoldable pub read_high : Mgbx → ℕ → Option ℕ
read_high gb addr =
    if addr == 0xff00
    then some (joypad_read gb.joypad)
    else if addr == 0xff01
    then some gb.mem.sb
    else if addr == 0xff02
    then some (u8 (bit_or gb.mem.sc 0x7e))
    else if leb 0xff04 addr && leb addr 0xff07
    then some (timer_read gb.timer addr)
    else if addr == 0xff0f
    then some (u8 (bit_or gb.mem.if_reg 0xe0))
    else if addr == 0xff46
    then some gb.mem.oam_dma_page
    else if addr == 0xff4d || (addr == 0xff4f || addr == 0xff50)
    then some 0xff
    else if leb 0xff10 addr && leb addr 0xff3f
    then some (apu_read gb.apu addr)
    else if leb 0xff40 addr && leb addr 0xff4b
    then some (ppu_read_reg gb.ppu addr)
    else if leb 0xff80 addr && leb addr 0xfffe
    then load gb.mem.hram 0x7f (addr - 0xff80)
    else if addr == 0xffff
    then some gb.mem.ie
    else some 0xff

-- `gb_bus_read`; `none` is an access outside of an array.
unfoldable pub bus_read : Mgbx → ℕ → Option ℕ
bus_read gb addr =
    if ltb addr 0x8000
    then cart_read gb.cart addr
    else if ltb addr 0xa000
    then vram_read gb.ppu addr
    else if ltb addr 0xc000
    then cart_read gb.cart addr
    else if ltb addr 0xfe00
    then load gb.mem.wram 0x2000 (bit_and addr 0x1fff)
    else if ltb addr 0xfea0
    then oam_read gb.ppu addr
    else if ltb addr 0xff00
    then some 0
    else read_high gb addr

-- The start of an OAM DMA.
unfoldable pub start_dma : Mgbx → ℕ → Option Mgbx
start_dma gb v =
    let page = if ltb 0xf1 v then 0xf1 else v in
    let gb' : Mgbx = record gb {
      mem = record (gb.mem) { oam_dma_page = page; dma_active = 1; dma_index = 0 };
    } in
    Option.map (λ b. record gb' { mem = record (gb'.mem) { dma_value = b } })
      (bus_read gb' (u16 (page * 0x100)))

unfoldable pub write_high : Mgbx → ℕ → ℕ → Option Mgbx
write_high gb addr v =
    let mem = gb.mem in
    if addr == 0xff00
    then some (joypad_write gb v)
    else if addr == 0xff01
    then some (record gb { mem = record mem { sb = v } })
    else if addr == 0xff02
    then some (record gb { mem = record mem { sc = bit_and v 0x81 } })
    else if leb 0xff04 addr && leb addr 0xff07
    then some (record gb { timer = timer_write gb.timer addr v })
    else if addr == 0xff0f
    then some (record gb { mem = record mem { if_reg = bit_and v 0x1f } })
    else if addr == 0xff46
    then start_dma gb v
    else if addr == 0xff50
    then some gb
    else if leb 0xff10 addr && leb addr 0xff3f
    then some (record gb { apu = apu_write gb.apu addr v })
    else if leb 0xff40 addr && leb addr 0xff4b
    then some (ppu_write_reg gb addr v)
    else if leb 0xff80 addr && leb addr 0xfffe
    then Option.map (λ hram. record gb { mem = record mem { hram = hram } })
        (store mem.hram 0x7f (addr - 0xff80) v)
    else if addr == 0xffff
    then some (record gb { mem = record mem { ie = v } })
    else some gb

-- `gb_bus_write`
unfoldable pub bus_write : Mgbx → ℕ → ℕ → Option Mgbx
bus_write gb addr v =
    if ltb addr 0x8000
    then Option.map (λ cart. record gb { cart = cart }) (cart_write gb.cart addr v)
    else if ltb addr 0xa000
    then Option.map (λ ppu. record gb { ppu = ppu }) (vram_write gb.ppu addr v)
    else if ltb addr 0xc000
    then Option.map (λ cart. record gb { cart = cart }) (cart_write gb.cart addr v)
    else if ltb addr 0xfe00
    then Option.map (λ wram. record gb { mem = record (gb.mem) { wram = wram } })
        (store gb.mem.wram 0x2000 (bit_and addr 0x1fff) v)
    else if ltb addr 0xfea0
    then Option.map (λ ppu. record gb { ppu = ppu }) (oam_write gb.ppu addr v)
    else if ltb addr 0xff00
    then some gb
    else write_high gb addr v
