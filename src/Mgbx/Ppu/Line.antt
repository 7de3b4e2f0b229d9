-- ===== src/Mgbx/Ppu/Line.antt =====
-- src/mgbx/ppu.c, `render_line`: the background and the window of one line. A read outside of VRAM
-- is `none`.
use aarch.Prelude.{
  ℕ, zero, suc, ◌+◌, ◌-◌, ◌*◌, ◌^◌, bit_and, bit_or, u8, u16, ◌<<<◌, ◌>>>◌, nonzero, leb,
  if◌then◌else◌, ◌&&◌, Bytes, Bool, true, false, Option, some, load, store, ◌>>=◌,
}
use aarch.Mgbx.State.{Ppu}

abbrev pub screen_w : ℕ
screen_w = 160

-- The loop that clears the line from `x` on, with the number of pixels left.
unfoldable pub clear_line : ℕ → ℕ → Bytes → Option Bytes
clear_line zero x pixels = some pixels
clear_line (suc left) x pixels =
    store pixels screen_w x 0 >>= λ pixels'. clear_line left (x + 1) pixels'

-- `data_addr` of a tile: unsigned from 0x0000, or signed around 0x1000.
abbrev pub tile_addr : ℕ → ℕ → ℕ
tile_addr lcdc index =
    if nonzero (bit_and lcdc 0x10)
    then u16 (index * 16)
    else u16 (0x1000 + index * 16 + (if leb 128 index then 2 ^ 16 - 0x1000 else 0))

-- Two bits of the two planes.
abbrev pub color : ℕ → ℕ → ℕ → ℕ
color lo hi bit = u8 (bit_or (bit_and (hi >>> bit) 1 <<< 1) (bit_and (lo >>> bit) 1))

unfoldable pub tile_pixel : Bytes → ℕ → ℕ → ℕ → Option ℕ
tile_pixel vram data_addr row bit = do
  lo ← load vram 0x2000 (data_addr + row * 2)
  hi ← load vram 0x2000 (data_addr + row * 2 + 1)
  some (color lo hi bit)

-- The pixel `bit` of the row `in_tile` of the tile that a map holds at a row and a column.
unfoldable pub map_pixel : Ppu → ℕ → ℕ → ℕ → ℕ → ℕ → Option ℕ
map_pixel ppu tile_map row col in_tile bit = do
  index ← load ppu.vram 0x2000 (u16 (tile_map + row * 32 + col))
  tile_pixel ppu.vram (tile_addr ppu.lcdc index) in_tile bit

abbrev pub bg_map : Ppu → ℕ
bg_map ppu = if nonzero (bit_and ppu.lcdc 0x08) then 0x1c00 else 0x1800

abbrev pub win_map : Ppu → ℕ
win_map ppu = if nonzero (bit_and ppu.lcdc 0x40) then 0x1c00 else 0x1800

unfoldable pub win_active : Ppu → Bool
win_active ppu = nonzero (bit_and ppu.lcdc 0x20) && (leb ppu.wy ppu.ly && leb ppu.wx 166)

-- Where the window covers the pixel.
abbrev pub in_window : Ppu → ℕ → Bool
in_window ppu x = win_active ppu && leb ppu.wx (x + 7)

unfoldable pub window_pixel : Ppu → ℕ → Option ℕ
window_pixel ppu x =
    let wx_in = x + 7 - ppu.wx in
    map_pixel ppu (win_map ppu) (u8 (ppu.win_line >>> 3)) (u8 (wx_in >>> 3))
      (bit_and ppu.win_line 7) (u8 (7 - bit_and wx_in 7))

unfoldable pub background_pixel : Ppu → ℕ → Option ℕ
background_pixel ppu x =
    let eff_y = u16 (ppu.ly + ppu.scy) in
    let eff_x = u16 (x + ppu.scx) in
    map_pixel ppu (bg_map ppu) (bit_and (eff_y >>> 3) 0xff) (bit_and (eff_x >>> 3) 0xff)
      (bit_and eff_y 7) (u8 (7 - bit_and eff_x 7))

-- The pixels from `x` on, with the number of pixels left: the line, and `window_drawn`.
unfoldable pub tiles_loop : ℕ → ℕ → Ppu → Bool → Option (Bool × Ppu)
tiles_loop zero x ppu drawn = some (drawn, ppu)
tiles_loop (suc left) x ppu drawn = do
  v ← if in_window ppu x then window_pixel ppu x else background_pixel ppu x
  pixels ← store ppu.line_pixels screen_w x v
  tiles_loop left (x + 1) (record ppu { line_pixels = pixels })
      (if in_window ppu x then true else drawn)

-- The line after the background and the window.
unfoldable pub draw_tiles : Ppu → Option (Bool × Ppu)
draw_tiles ppu = do
  pixels ← clear_line screen_w 0 ppu.line_pixels
  let clear : Ppu = record ppu { line_pixels = pixels }
  if nonzero (bit_and ppu.lcdc 0x01) then tiles_loop screen_w 0 clear false else some (false, clear)
