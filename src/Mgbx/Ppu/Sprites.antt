-- ===== src/Mgbx/Ppu/Sprites.antt =====
-- src/mgbx/ppu.c, `render_line`: the sprites of one line. An access outside of OAM, of the line, of
-- its marks or of `order` is `none`. `order` is the list of its first `count` elements.
use mathlib.Core.Option
use aarch.Prelude.{
  ℕ, zero, suc, ◌+◌, ◌-◌, ◌*◌, ◌^◌, bit_and, bit_or, u8, u16, u32, ◌>>>◌, nonzero, ◌==◌, ltb, leb,
  if◌then◌else◌, ◌&&◌, ◌||◌, Bool, true, false, Option, none, some, load, store, fill, ◌>>=◌, List,
  [], ◌∷◌,
}
use aarch.Mgbx.State.{Ppu}
use aarch.Mgbx.Ppu.Line.{screen_w, color}

abbrev pub oam_size : ℕ
oam_size = 0xa0

-- The size of `order`.
abbrev pub order_size : ℕ
order_size = 40

abbrev pub height : Ppu → ℕ
height ppu = if nonzero (bit_and ppu.lcdc 0x04) then 16 else 8

-- `line >= 0 && line < height` with `line = ly + 16 - sy`.
abbrev pub covers : Ppu → ℕ → Bool
covers ppu sy = leb sy (ppu.ly + 16) && ltb (ppu.ly + 16) (sy + height ppu)

-- The scan of OAM from the entry `i` on, with the number of entries left: the elements that are
-- stored in `order` from `count` on.
unfoldable pub pick_sprites : ℕ → ℕ → ℕ → Ppu → Option (List ℕ)
pick_sprites zero count i ppu = some []
pick_sprites (suc left) count i ppu = elim (ltb count 10) [
  | false ↦ some []
  | true ↦ load ppu.oam oam_size (i * 4) >>= λ sy. elim (covers ppu sy) [
    | true ↦ elim (ltb count order_size) [
      | true ↦ Option.map (λ rest. u8 i ∷ rest) (pick_sprites left (count + 1) (i + 1) ppu)
      | false ↦ none
    ]
    | false ↦ pick_sprites left count (i + 1) ppu
  ]
]

-- The inner loop of the insertion sort: the sorted elements, the last one first, with the key, whose
-- X is `kx`, behind those whose X is larger.
unfoldable pub insert_sprite : Ppu → ℕ → ℕ → List ℕ → Option (List ℕ)
insert_sprite ppu key kx [] = some (key ∷ [])
insert_sprite ppu key kx (i ∷ rest) = load ppu.oam oam_size (i * 4 + 1) >>= λ x. elim (ltb kx x) [
  | true ↦ Option.map (λ moved. i ∷ moved) (insert_sprite ppu key kx rest)
  | false ↦ some (key ∷ i ∷ rest)
]

-- The outer loop, over the elements that are not sorted yet; the result has the last element first.
unfoldable pub sort_sprites : Ppu → List ℕ → List ℕ → Option (List ℕ)
sort_sprites ppu sorted [] = some sorted
sort_sprites ppu sorted (key ∷ order) = do
  kx ← load ppu.oam oam_size (key * 4 + 1)
  sorted' ← insert_sprite ppu key kx sorted
  sort_sprites ppu sorted' order

-- The loop begins at the second element.
unfoldable pub sort_order : Ppu → List ℕ → Option (List ℕ)
sort_order ppu [] = some []
sort_order ppu (first ∷ order) = sort_sprites ppu (first ∷ []) order

-- `x < 0 || x >= (int)GB_SCREEN_W` of the 32 bits of `x`.
abbrev pub off_screen : ℕ → Bool
off_screen x = leb 0x8000_0000 x || (ltb x 0x8000_0000 && leb screen_w x)

-- One pixel of a sprite, `px` from its left edge, which is 8 before its X.
unfoldable pub sprite_pixel : ℕ → ℕ → ℕ → ℕ → ℕ → ℕ → Ppu → Option Ppu
sprite_pixel sx flags pal lo hi px ppu =
    let x = u32 (sx + px + 2 ^ 32 - 8) in
    let bit = if nonzero (bit_and flags 0x20) then px else 7 - px in
    let color2 = color lo hi bit in
    if off_screen x
    then some ppu
    else load ppu.sprite_drawn screen_w x >>= λ drawn.
        if nonzero drawn
        then some ppu
        else if color2 == 0
        then some ppu
        else (if nonzero (bit_and flags 0x80) then load ppu.line_pixels screen_w x else some 0)
          >>= λ behind.
              if nonzero behind
              then some ppu
              else store ppu.line_pixels screen_w x
                  (u8 (bit_or (bit_and (pal >>> (color2 * 2)) 3) 4))
                >>= λ pixels. store ppu.sprite_drawn screen_w x 1 >>= λ marks.
                    some (record ppu { line_pixels = pixels; sprite_drawn = marks })

-- The pixels from `px` on, with the number left.
unfoldable pub sprite_pixels : ℕ → ℕ → (ℕ → Ppu → Option Ppu) → Ppu → Option Ppu
sprite_pixels zero px draw ppu = some ppu
sprite_pixels (suc left) px draw ppu = do ppu' ← draw px ppu; sprite_pixels left (px + 1) draw ppu'

-- The row of the sprite on this line, with the Y flip.
abbrev pub sprite_row : Ppu → ℕ → ℕ → ℕ
sprite_row ppu sy flags =
    let row = ppu.ly + 16 - sy in if nonzero (bit_and flags 0x40) then height ppu - 1 - row else row

abbrev pub tile_sel : Ppu → ℕ → ℕ → ℕ
tile_sel ppu tile row =
    if height ppu == 16
    then (if leb 8 row then u8 (bit_or tile 1) else u8 (bit_and tile 0xfe))
    else tile

unfoldable pub draw_sprite : ℕ → Ppu → Option Ppu
draw_sprite idx ppu = do
  sx ← load ppu.oam oam_size (idx * 4 + 1)
  tile ← load ppu.oam oam_size (idx * 4 + 2)
  flags ← load ppu.oam oam_size (idx * 4 + 3)
  sy ← load ppu.oam oam_size (idx * 4)
  let pal = if nonzero (bit_and flags 0x10) then ppu.obp1 else ppu.obp0
  let row = sprite_row ppu sy flags
  let data_addr = u16 (tile_sel ppu tile row * 16 + bit_and row 7 * 2)
  lo ← load ppu.vram 0x2000 data_addr
  hi ← load ppu.vram 0x2000 (data_addr + 1)
  sprite_pixels 8 0 (sprite_pixel sx flags pal lo hi) ppu

-- The sprites, the last one of the list first.
unfoldable pub draw_all : List ℕ → Ppu → Option Ppu
draw_all [] ppu = some ppu
draw_all (idx ∷ earlier) ppu = do ppu' ← draw_all earlier ppu; draw_sprite idx ppu'

-- The sprites of the line, sorted, the last one first.
unfoldable pub sprite_order : Ppu → Option (List ℕ)
sprite_order ppu = pick_sprites 40 0 0 ppu >>= λ picked. sort_order ppu picked

unfoldable pub draw_sprites : Ppu → Option Ppu
draw_sprites ppu =
    if nonzero (bit_and ppu.lcdc 0x02)
    then (do
      order ← sprite_order ppu
      marks ← fill ppu.sprite_drawn screen_w 0 screen_w
      draw_all order (record ppu { sprite_drawn = marks }))
    else some ppu
