-- ===== src/Mgbx/Ppu/Bounds.antt =====
-- Memory safety of `render_line`, while the line lies inside its background map.
use aarch.Prelude.{
  branches, store_lem, load_lem, ℕ, zero, suc, ◌+◌, ◌-◌, ◌*◌, ◌/◌, ◌≤◌, ◌<◌, ◌≡◌, refl, arith,
  bit_and, bit_and_mask, u8, u16, ◌>>>◌, nonzero, if◌then◌else◌, Bytes, IsBytes, Bool, true, false,
  update, Option, some,
}
use aarch.Mgbx.State.{Ppu}
use aarch.Mgbx.Ppu.{fb_size}
use aarch.Mgbx.Ppu.Line.{
  screen_w, clear_line, tile_addr, color, tile_pixel, map_pixel, bg_map, win_map, in_window,
  window_pixel, background_pixel, tiles_loop, draw_tiles,
}
use aarch.Mgbx.Ppu.Painted.{draw_sprites-SpritesDrawn}
use aarch.Mgbx.Ppu.Step.{shade, compose_row, render_line}

-- The access stays in its array.
abbrev Reads : Option ℕ → Type 0
Reads o = (v : ℕ) × (o ≡ some v)

tile_pixel-Reads :
    (vram : Bytes) (addr row bit : ℕ)
    → addr + row * 2 + 1 < 0x2000
    → Reads (tile_pixel vram addr row bit)
unfolding tile_pixel
tile_pixel-Reads vram addr row bit fits =
    (color (vram (addr + row * 2)) (vram (addr + row * 2 + 1)) bit, ground arith)

tile_addr-le : (lcdc index : ℕ) → index < 256 → tile_addr lcdc index ≤ 0x17f0
tile_addr-le lcdc index small = ground arith

map_pixel-Reads :
    (ppu : Ppu) (tile_map row col in_tile bit : ℕ)
    → IsBytes ppu.vram
    → tile_map + row * 32 + col < 0x2000
    → in_tile ≤ 7
    → Reads (map_pixel ppu tile_map row col in_tile bit)
unfolding map_pixel
map_pixel-Reads ppu tile_map row col in_tile bit bytes inside small =
    let index = ppu.vram (u16 (tile_map + row * 32 + col)) in
    let (v, e) =
      tile_pixel-Reads ppu.vram (tile_addr ppu.lcdc index) in_tile bit
        (omega (arith, tile_addr-le ppu.lcdc index (bytes (u16 (tile_map + row * 32 + col))))) in
    (v, ground (arith, e))

-- The background of every line lies inside VRAM: the code does not wrap the map's rows and
-- columns at 32.
abbrev pub InView : Ppu → Type 0
InView ppu = bg_map ppu + (143 + ppu.scy) / 8 * 32 + (159 + ppu.scx) / 8 < 0x2000

abbrev pub CanDraw : Ppu → Type 0
CanDraw ppu = InView ppu × (ppu.ly < 144) × (ppu.scy < 256) × (ppu.scx < 256) × (ppu.win_line < 256)

background_pixel-Reads :
    (ppu : Ppu) (x : ℕ) → IsBytes ppu.vram → CanDraw ppu → x < 160 → Reads (background_pixel ppu x)
unfolding background_pixel
background_pixel-Reads ppu x bytes h small =
    let eff_y = u16 (ppu.ly + ppu.scy) in
    let eff_x = u16 (x + ppu.scx) in
    map_pixel-Reads ppu (bg_map ppu) (bit_and (eff_y >>> 3) 0xff) (bit_and (eff_x >>> 3) 0xff)
      (bit_and eff_y 7) (u8 (7 - bit_and eff_x 7)) bytes
      (omega (arith, bit_and_mask 8 (eff_y >>> 3), bit_and_mask 8 (eff_x >>> 3)))
      (omega (arith, bit_and_mask 3 eff_y))

window_pixel-Reads :
    (ppu : Ppu) (x : ℕ) → IsBytes ppu.vram → CanDraw ppu → x < 160 → Reads (window_pixel ppu x)
unfolding window_pixel
window_pixel-Reads ppu x bytes h small =
    let wx_in = x + 7 - ppu.wx in
    map_pixel-Reads ppu (win_map ppu) (u8 (ppu.win_line >>> 3)) (u8 (wx_in >>> 3))
      (bit_and ppu.win_line 7) (u8 (7 - bit_and wx_in 7)) bytes (ground arith)
      (omega (arith, bit_and_mask 3 ppu.win_line))

pixel-Reads : (b : Bool) {x y : Option ℕ} → Reads x → Reads y → Reads (if b then x else y)
pixel-Reads true h k = h
pixel-Reads false h k = k

-- The routine succeeds and changes the line only.
abbrev pub TilesDrawn : Ppu → Option (Bool × Ppu) → Type 0
TilesDrawn ppu o =
    (drawn : Bool) × (pixels : Bytes) × (o ≡ some (drawn, record ppu { line_pixels = pixels }))

tiles_loop-TilesDrawn :
    (left x : ℕ) (ppu : Ppu) (drawn : Bool)
    → IsBytes ppu.vram
    → CanDraw ppu
    → left + x ≤ 160
    → TilesDrawn ppu (tiles_loop left x ppu drawn)
unfolding tiles_loop
tiles_loop-TilesDrawn zero x ppu drawn bytes h fits = (drawn, ppu.line_pixels, refl)
tiles_loop-TilesDrawn (suc left) x ppu drawn bytes h fits =
    let (v, e) =
      pixel-Reads (in_window ppu x) (window_pixel-Reads ppu x bytes h (omega arith))
        (background_pixel-Reads ppu x bytes h (omega arith)) in
    let drawn' = if in_window ppu x then true else drawn in
    let (d, pixels, e') =
      tiles_loop-TilesDrawn left (x + 1) (record ppu { line_pixels = update ppu.line_pixels x v })
        drawn' bytes h (omega arith) in
    (d, pixels, rw (e, store_lem ppu.line_pixels {size = screen_w} {i = x} v (omega arith)) e')

-- The clearing stays inside the line.
pub clear_line-Some :
    (left x : ℕ) (pixels : Bytes)
    → left + x ≤ 160
    → (cleared : Bytes) × (clear_line left x pixels ≡ some cleared)
unfolding clear_line
clear_line-Some zero x pixels fits = (pixels, refl)
clear_line-Some (suc left) x pixels fits =
    let (cleared, e) = clear_line-Some left (x + 1) (update pixels x 0) (omega arith) in
    (cleared, rw (store_lem pixels {size = screen_w} {i = x} 0 (omega arith)) e)

draw_tiles-TilesDrawn :
    (ppu : Ppu) → IsBytes ppu.vram → CanDraw ppu → TilesDrawn ppu (draw_tiles ppu)
unfolding draw_tiles
draw_tiles-TilesDrawn ppu bytes h =
    let (cleared, e) = clear_line-Some screen_w 0 ppu.line_pixels (omega arith) in
    let clear : Ppu = record ppu { line_pixels = cleared } in
    rw e (
      branches (TilesDrawn ppu) (nonzero (bit_and ppu.lcdc 0x01))
        (λ _. tiles_loop-TilesDrawn screen_w 0 clear false bytes h (omega arith))
        (λ _. (false, cleared, refl)))

pub compose_row-Some :
    (left x : ℕ) (ppu : Ppu)
    → ppu.ly < 144
    → left + x ≤ 160
    → (fb : Bytes) × (compose_row left x ppu ≡ some (record ppu { fb = fb }))
unfolding compose_row
compose_row-Some zero x ppu line fits = (ppu.fb, refl)
compose_row-Some (suc left) x ppu line fits =
    let v = shade ppu (ppu.line_pixels x) in
    let at = ppu.ly * screen_w + x in
    let (fb, e) =
      compose_row-Some left (x + 1) (record ppu { fb = update ppu.fb at v }) line (omega arith) in
    (
      fb,
      rw
          (
            load_lem ppu.line_pixels {size = screen_w} {i = x} (omega arith),
            store_lem ppu.fb {size = fb_size} {i = at} v (omega arith),
          )
          e,
    )

-- The render of a line, where video memory and OAM hold bytes and where the line is visible and its
-- background lies inside the map (CanDraw), stays inside every array that it reads or writes (video
-- memory, OAM, the line, its marks of drawn pixels, the indices of the sprites and the frame buffer),
-- and changes the frame buffer, the line and its marks, and the window's line counter only.
pub render_line-Drawn :
    (ppu : Ppu)
    → IsBytes ppu.vram
    → IsBytes ppu.oam
    → CanDraw ppu
    → (fb : Bytes) × (pixels : Bytes) × (marks : Bytes) × (win_line : ℕ) × (win_line < 256)
      × (render_line ppu
          ≡ some (record ppu {
            fb = fb;
            line_pixels = pixels;
            sprite_drawn = marks;
            win_line = win_line;
          }))
unfolding render_line
render_line-Drawn ppu vram oam h =
    let (drawn, pixels, e) = draw_tiles-TilesDrawn ppu vram h in
    let ppu1 : Ppu = record ppu { line_pixels = pixels } in
    let (pixels', marks, e') = draw_sprites-SpritesDrawn ppu1 oam in
    let ppu2 : Ppu = record ppu1 { line_pixels = pixels'; sprite_drawn = marks } in
    let (fb, e'') = compose_row-Some screen_w 0 ppu2 h.1 (omega arith) in
    (
      fb,
      pixels',
      marks,
      (if drawn then u8 (ppu.win_line + 1) else ppu.win_line),
      ground arith,
      rw (e, e', e'') (ground arith),
    )
