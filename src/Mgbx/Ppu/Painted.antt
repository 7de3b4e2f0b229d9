-- ===== src/Mgbx/Ppu/Painted.antt =====
-- Memory safety of the sprites of a line.
use aarch.Prelude.{
  branches, store_lem, load_lem, ◌^◌, u32, bit_or, store, ◌==◌, ◌>>=◌, Bool-cases, inl, inr, ℕ,
  zero, suc, ◌+◌, ◌-◌, ◌*◌, ◌<◌, ◌≡◌, refl, arith, bit_and, bit_and_mask, u8, u16, ◌>>>◌, nonzero,
  ltb, if◌then◌else◌, Bytes, IsBytes, false, update, Option, some, load, List, [], ◌∷◌,
}
use aarch.Mgbx.State.{Ppu}
use aarch.Mgbx.Ppu.Line.{screen_w, color}
use aarch.Mgbx.Ppu.Order.{AllBelow, sprite_order-AllBelow}
use aarch.Mgbx.Ppu.Sprites.{
  off_screen, oam_size, sprite_row, tile_sel, sprite_pixel, sprite_pixels, draw_sprite, draw_all,
  draw_sprites,
}

-- The sprites change the line and its marks only.
abbrev pub SpritesDrawn : Ppu → Option Ppu → Type 0
SpritesDrawn ppu o =
    (pixels : Bytes) × (marks : Bytes) × (o
      ≡ some (record ppu { line_pixels = pixels; sprite_drawn = marks }))

on_screen : (x : ℕ) → off_screen x ≡ false → x < 160
on_screen x e = ground arith

sprite_pixel-SpritesDrawn :
    (sx flags pal lo hi px : ℕ) (ppu : Ppu)
    → SpritesDrawn ppu (sprite_pixel sx flags pal lo hi px ppu)
unfolding sprite_pixel
sprite_pixel-SpritesDrawn sx flags pal lo hi px ppu =
    let x = u32 (sx + px + 2 ^ 32 - 8) in
    let bit = if nonzero (bit_and flags 0x20) then px else 7 - px in
    let color2 = color lo hi bit in
    let v = u8 (bit_or (bit_and (pal >>> (color2 * 2)) 3) 4) in
    let same : SpritesDrawn ppu (some ppu) = (ppu.line_pixels, ppu.sprite_drawn, refl) in
    branches (SpritesDrawn ppu) (off_screen x) (λ _. same)
      (λ on.
        let inside = on_screen x on in
        let read = load_lem ppu.line_pixels {size = screen_w} {i = x} inside in
        let drawn : SpritesDrawn ppu (
            store ppu.line_pixels screen_w x v >>= λ pixels.
            store ppu.sprite_drawn screen_w x 1 >>= λ marks.
            some (record ppu { line_pixels = pixels; sprite_drawn = marks })) =
          (
            update ppu.line_pixels x v,
            update ppu.sprite_drawn x 1,
            rw
                (
                  store_lem ppu.line_pixels {size = screen_w} {i = x} v inside,
                  store_lem ppu.sprite_drawn {size = screen_w} {i = x} 1 inside,
                )
                refl,
          ) in
        rw (load_lem ppu.sprite_drawn {size = screen_w} {i = x} inside) (
          branches (SpritesDrawn ppu) (nonzero (ppu.sprite_drawn x)) (λ _. same)
            (λ _.
              branches (SpritesDrawn ppu) (color2 == 0) (λ _. same)
                (λ _. elim (Bool-cases (nonzero (bit_and flags 0x80))) [
                  | inl t ↦
                      rw (t, read)
                        (branches (SpritesDrawn ppu) (nonzero (ppu.line_pixels x)) (λ _. same)
                          (λ _. drawn))
                  | inr f ↦ rw f drawn
                ]))))

sprite_pixels-SpritesDrawn :
    (left px : ℕ) (sx flags pal lo hi : ℕ) (ppu : Ppu)
    → SpritesDrawn ppu (sprite_pixels left px (sprite_pixel sx flags pal lo hi) ppu)
unfolding sprite_pixels
sprite_pixels-SpritesDrawn zero px sx flags pal lo hi ppu =
    (ppu.line_pixels, ppu.sprite_drawn, refl)
sprite_pixels-SpritesDrawn (suc left) px sx flags pal lo hi ppu =
    let (pixels, marks, e) = sprite_pixel-SpritesDrawn sx flags pal lo hi px ppu in
    let drawn : Ppu = record ppu { line_pixels = pixels; sprite_drawn = marks } in
    let (pixels', marks', e') = sprite_pixels-SpritesDrawn left (px + 1) sx flags pal lo hi drawn in
    (pixels', marks', rw e e')

tile_sel-lt : (ppu : Ppu) (tile row : ℕ) → tile < 256 → tile_sel ppu tile row < 256
tile_sel-lt ppu tile row small = ground arith

draw_sprite-SpritesDrawn :
    (idx : ℕ) (ppu : Ppu) → IsBytes ppu.oam → idx < 40 → SpritesDrawn ppu (draw_sprite idx ppu)
unfolding draw_sprite
draw_sprite-SpritesDrawn idx ppu bytes small =
    let tile = ppu.oam (idx * 4 + 2) in
    let flags = ppu.oam (idx * 4 + 3) in
    let row = sprite_row ppu (ppu.oam (idx * 4)) flags in
    let data_addr = u16 (tile_sel ppu tile row * 16 + bit_and row 7 * 2) in
    let pal = if nonzero (bit_and flags 0x10) then ppu.obp1 else ppu.obp0 in
    let fits : data_addr + 1 < 0x2000 =
      omega (arith, tile_sel-lt ppu tile row (bytes (idx * 4 + 2)), bit_and_mask 3 row) in
    let at_x = load_lem ppu.oam {size = oam_size} {i = idx * 4 + 1} (omega arith) in
    let at_tile = load_lem ppu.oam {size = oam_size} {i = idx * 4 + 2} (omega arith) in
    let at_flags = load_lem ppu.oam {size = oam_size} {i = idx * 4 + 3} (omega arith) in
    let at_y = load_lem ppu.oam {size = oam_size} {i = idx * 4} (omega arith) in
    let lo : load ppu.vram 0x2000 data_addr ≡ some (ppu.vram data_addr) = ground arith in
    let hi : load ppu.vram 0x2000 (data_addr + 1) ≡ some (ppu.vram (data_addr + 1)) =
      ground arith in
    let (pixels, marks, e) =
      sprite_pixels-SpritesDrawn 8 0 (ppu.oam (idx * 4 + 1)) flags pal (ppu.vram data_addr)
        (ppu.vram (data_addr + 1)) ppu in
    (pixels, marks, rw (at_x, at_tile, at_flags, at_y, lo, hi) e)

draw_all-SpritesDrawn :
    (order : List ℕ) (ppu : Ppu)
    → IsBytes ppu.oam
    → AllBelow 40 order
    → SpritesDrawn ppu (draw_all order ppu)
unfolding draw_all
draw_all-SpritesDrawn [] ppu bytes b = (ppu.line_pixels, ppu.sprite_drawn, refl)
draw_all-SpritesDrawn (idx ∷ earlier) ppu bytes b =
    let (pixels, marks, e) = draw_all-SpritesDrawn earlier ppu bytes b.1 in
    let drawn : Ppu = record ppu { line_pixels = pixels; sprite_drawn = marks } in
    let (pixels', marks', e') = draw_sprite-SpritesDrawn idx drawn bytes b.0 in
    (pixels', marks', rw e e')

pub draw_sprites-SpritesDrawn : (ppu : Ppu) → IsBytes ppu.oam → SpritesDrawn ppu (draw_sprites ppu)
unfolding draw_sprites
draw_sprites-SpritesDrawn ppu bytes =
    let (order, e, b) = sprite_order-AllBelow ppu in
    let start : Ppu = record ppu {
      sprite_drawn = λ i. if ltb i screen_w then 0 else ppu.sprite_drawn i;
    } in
    branches (SpritesDrawn ppu) (nonzero (bit_and ppu.lcdc 0x02))
      (λ _. rw e (draw_all-SpritesDrawn order start bytes b))
      (λ _. (ppu.line_pixels, ppu.sprite_drawn, refl))
