-- ===== src/Mgbx/Ppu.antt =====
-- src/mgbx/ppu.c: video memory, the registers, the LYC comparison and the mode bits.
pub mod Line
pub mod Sprites
pub mod Step
pub mod Painted
pub mod Bounds
pub mod Order
pub mod Position
pub mod Beam
pub mod Partial
mod Tests
use aarch.Prelude.{
  ℕ, ◌-◌, ◌*◌, bit_and, bit_or, u8, not8, nonzero, ◌==◌, ltb, not, if◌then◌else◌, ◌&&◌, Bytes,
  zeroed, Option, load, store,
}
use mathlib.Core.Option
use aarch.Mgbx.State.{Mgbx, Ppu}
use aarch.Mgbx.Interrupt.{request_interrupt}

-- `shade_colors[0]`
abbrev pub lightest : ℕ
lightest = 0xff9bbc0f

-- The pixels of the frame buffer.
abbrev pub fb_size : ℕ
fb_size = 160 * 144

-- The loop over `fb`.
abbrev pub blank : Bytes → Bytes
blank fb = λ i. if ltb i fb_size then lightest else fb i

unfoldable pub ppu_reset : Ppu → Ppu
ppu_reset ppu = record {
  vram = zeroed;
  oam = zeroed;
  lcdc = 0x91;
  stat = 0x85;
  scy = 0;
  scx = 0;
  ly = 0;
  lyc = 0;
  bgp = 0xfc;
  obp0 = 0xff;
  obp1 = 0xff;
  wy = 0;
  wx = 0;
  dot = 0;
  win_line = 0;
  fb = blank ppu.fb;
  line_pixels = zeroed;
  sprite_drawn = zeroed;
}

-- `none` is an access outside of the array.
unfoldable pub vram_read : Ppu → ℕ → Option ℕ
vram_read ppu addr = load ppu.vram 0x2000 (addr - 0x8000)

unfoldable pub vram_write : Ppu → ℕ → ℕ → Option Ppu
vram_write ppu addr v =
    Option.map (λ vram. record ppu { vram = vram }) (store ppu.vram 0x2000 (addr - 0x8000) v)

unfoldable pub oam_read : Ppu → ℕ → Option ℕ
oam_read ppu addr = load ppu.oam 0xa0 (addr - 0xfe00)

unfoldable pub oam_write : Ppu → ℕ → ℕ → Option Ppu
oam_write ppu addr v =
    Option.map (λ oam. record ppu { oam = oam }) (store ppu.oam 0xa0 (addr - 0xfe00) v)

unfoldable pub ppu_read_reg : Ppu → ℕ → ℕ
ppu_read_reg ppu addr =
    if addr == 0xff40
    then ppu.lcdc
    else if addr == 0xff41
    then u8 (bit_or ppu.stat 0x80)
    else if addr == 0xff42
    then ppu.scy
    else if addr == 0xff43
    then ppu.scx
    else if addr == 0xff44
    then ppu.ly
    else if addr == 0xff45
    then ppu.lyc
    else if addr == 0xff47
    then ppu.bgp
    else if addr == 0xff48
    then u8 (bit_or ppu.obp0 0xc0)
    else if addr == 0xff49
    then u8 (bit_or ppu.obp1 0xc0)
    else if addr == 0xff4a
    then ppu.wy
    else if addr == 0xff4b
    then ppu.wx
    else 0xff

unfoldable pub check_lyc : Mgbx → Mgbx
check_lyc gb =
    let ppu = gb.ppu in
    let coincident = ppu.ly == ppu.lyc in
    let stat = u8 (bit_or (bit_and ppu.stat (not8 0x04)) (if coincident then 0x04 else 0)) in
    let gb' : Mgbx = record gb { ppu = record ppu { stat = stat } } in
    if coincident && (nonzero (bit_and stat 0x40) && nonzero (bit_and ppu.lcdc 0x80))
    then request_interrupt gb' 1
    else gb'

-- LCDC, with the LCD switched off when bit 7 is clear.
unfoldable pub write_lcdc : Ppu → ℕ → Ppu
write_lcdc ppu v =
    if not (nonzero (bit_and v 0x80))
    then record ppu {
      lcdc = v;
      ly = 0;
      dot = 0;
      win_line = 0;
      stat = u8 (bit_or (bit_and ppu.stat 0x78) 0x80);
      fb = blank ppu.fb;
    }
    else record ppu { lcdc = v }

unfoldable pub ppu_write_reg : Mgbx → ℕ → ℕ → Mgbx
ppu_write_reg gb addr v =
    let ppu = gb.ppu in
    let stat = u8 (bit_or (bit_or (bit_and ppu.stat 0x07) (bit_and v 0x78)) 0x80) in
    if addr == 0xff40
    then record gb { ppu = write_lcdc ppu v }
    else if addr == 0xff41
    then record gb { ppu = record ppu { stat = stat } }
    else if addr == 0xff42
    then record gb { ppu = record ppu { scy = v } }
    else if addr == 0xff43
    then record gb { ppu = record ppu { scx = v } }
    else if addr == 0xff45
    then check_lyc (record gb { ppu = record ppu { lyc = v } })
    else if addr == 0xff47
    then record gb { ppu = record ppu { bgp = v } }
    else if addr == 0xff48
    then record gb { ppu = record ppu { obp0 = v } }
    else if addr == 0xff49
    then record gb { ppu = record ppu { obp1 = v } }
    else if addr == 0xff4a
    then record gb { ppu = record ppu { wy = v } }
    else if addr == 0xff4b
    then record gb { ppu = record ppu { wx = v } }
    else gb
