-- ===== src/Mgbx/Ppu/Tests.antt =====
-- Runs of the renderer.
use aarch.Prelude.{
  ℕ, ◌≡◌, ◌<◌, ◌≤◌, refl, arith, ◌==◌, if◌then◌else◌, Bytes, some, List, length, [], ◌∷◌,
}
use mathlib.Core.List.{Perm}
use aarch.Mgbx.State.{Ppu}
use aarch.Mgbx.Fixtures.{idle_ppu}
use aarch.Mgbx.Ppu.Bounds.{render_line-Drawn}
use aarch.Mgbx.Ppu.Step.{render_line}
use aarch.Mgbx.Ppu.Sprites.{
  sprite_order, pick_sprites, sort_order, sort_sprites, insert_sprite, sprite_pixel,
}
use aarch.Mgbx.Ppu.Order.{LastFirst, take, covering, sprite_order_lem}

-- Three sprites on line 4: their X are 30, 20 and 30.
abbrev sprites : Bytes
sprites i =
    if i == 0
    then 16
    else if i == 1
    then 30
    else if i == 4
    then 16
    else if i == 5
    then 20
    else if i == 8
    then 16
    else if i == 9
    then 30
    else 0

abbrev crowded : Ppu
crowded = record idle_ppu { oam = sprites; lcdc = 0xb3; ly = 4 }

sprite_order_example :
    (order : List ℕ) × (sprite_order crowded ≡ some order)
    × Perm order (take 10 (covering crowded))
    × LastFirst crowded order
    × (length (take 10 (covering crowded)) ≤ 10)
sprite_order_example = sprite_order_lem crowded

-- The one with the smaller X is drawn first; the others in OAM order.
drawn_order : sprite_order crowded ≡ some (2 ∷ 0 ∷ 1 ∷ [])
unfolding sprite_order pick_sprites sort_order sort_sprites insert_sprite
drawn_order = refl

-- The background, the window and the sprites are drawn.
render_line-Drawn_example :
    (fb : Bytes) × (pixels : Bytes) × (marks : Bytes) × (win_line : ℕ) × (win_line < 256)
    × (render_line crowded
        ≡ some (record crowded {
          fb = fb;
          line_pixels = pixels;
          sprite_drawn = marks;
          win_line = win_line;
        }))
render_line-Drawn_example =
    render_line-Drawn crowded (λ i. omega arith) (λ i. ground arith) (omega arith)

-- A pixel left of the screen, and one right of it, are skipped.
clipped :
    (sprite_pixel 3 0 0 0xff 0xff 2 crowded ≡ some crowded)
    × (sprite_pixel 166 0 0 0xff 0xff 2 crowded ≡ some crowded)
unfolding sprite_pixel
clipped = (refl, refl)
