-- ===== src/Mgbx/Ppu/Step.antt =====
-- src/mgbx/ppu.c: the line in the frame buffer, the modes, and `gb_ppu_step`.
use aarch.Prelude.{
  ℕ, zero, suc, ◌+◌, ◌*◌, bit_and, bit_or, u8, u16, not8, ◌>>>◌, nonzero, ◌==◌, ltb, not,
  if◌then◌else◌, ◌&&◌, Option, some, load, store, ◌>>=◌,
}
use mathlib.Core.Option
use aarch.Mgbx.State.{Mgbx, Ppu}
use aarch.Mgbx.Interrupt.{request_interrupt}
use aarch.Mgbx.Ppu.{fb_size, lightest, check_lyc}
use aarch.Mgbx.Ppu.Line.{screen_w, draw_tiles}
use aarch.Mgbx.Ppu.Sprites.{draw_sprites}

-- `shade_colors`
abbrev pub shade_colors : ℕ → ℕ
shade_colors i =
    if i == 0
    then lightest
    else if i == 1
    then 0xff8b_ac0f
    else if i == 2
    then 0xff30_6230
    else 0xff0f_380f

-- The colour of a value of the line.
abbrev pub shade : Ppu → ℕ → ℕ
shade ppu p =
    if nonzero (bit_and p 4)
    then shade_colors (bit_and p 3)
    else shade_colors (bit_and (ppu.bgp >>> (p * 2)) 3)

-- The pixels from `x` on, with the number left.
unfoldable pub compose_row : ℕ → ℕ → Ppu → Option Ppu
compose_row zero x ppu = some ppu
compose_row (suc left) x ppu = do
  p ← load ppu.line_pixels screen_w x
  fb ← store ppu.fb fb_size (ppu.ly * screen_w + x) (shade ppu p)
  compose_row left (x + 1) (record ppu { fb = fb })

unfoldable pub render_line : Ppu → Option Ppu
render_line ppu = do
  (window_drawn, ppu1) ← draw_tiles ppu
  ppu2 ← draw_sprites ppu1
  ppu3 ← compose_row screen_w 0 ppu2
  some (if window_drawn then record ppu3 { win_line = u8 (ppu3.win_line + 1) } else ppu3)

abbrev pub mode_hblank : ℕ
mode_hblank = 0

abbrev pub mode_vblank : ℕ
mode_vblank = 1

abbrev pub mode_oam : ℕ
mode_oam = 2

abbrev pub mode_draw : ℕ
mode_draw = 3

-- The bit of STAT that enables the interrupt of a mode.
abbrev pub mode_enable : ℕ → ℕ
mode_enable mode =
    if mode == mode_oam
    then 0x20
    else if mode == mode_vblank
    then 0x10
    else if mode == mode_hblank
    then 0x08
    else 0

unfoldable pub set_mode : Mgbx → ℕ → Mgbx
set_mode gb mode =
    let ppu = gb.ppu in
    let stat = u8 (bit_or (bit_and ppu.stat (not8 0x03)) mode) in
    let gb' : Mgbx = record gb { ppu = record ppu { stat = stat } } in
    if nonzero (bit_and stat (mode_enable mode)) then request_interrupt gb' 1 else gb'

-- The end of a line.
unfoldable pub next_line : Mgbx → Mgbx
next_line gb =
    let ppu = gb.ppu in
    if ppu.ly == 153
    then set_mode (check_lyc (record gb { ppu = record ppu { dot = 0; ly = 0 } })) mode_oam
    else let gb' = check_lyc (record gb { ppu = record ppu { dot = 0; ly = u8 (ppu.ly + 1) } }) in
      if gb'.ppu.ly == 144
      then request_interrupt (set_mode gb' mode_vblank) 0
      else set_mode gb' mode_oam

-- One round of the loop.
unfoldable pub ppu_dot : Mgbx → Option Mgbx
ppu_dot gb =
    let ppu = gb.ppu in
    let dot = u16 (ppu.dot + 1) in
    let gb' : Mgbx = record gb { ppu = record ppu { dot = dot } } in
    if dot == 456
    then some (next_line gb')
    else if ltb ppu.ly 144 && dot == 80
    then Option.map (λ ppu'. set_mode (record gb' { ppu = ppu' }) mode_draw) (render_line gb'.ppu)
    else if ltb ppu.ly 144 && dot == 252
    then some (set_mode gb' mode_hblank)
    else some gb'

unfoldable pub ppu_loop : ℕ → Mgbx → Option Mgbx
ppu_loop zero gb = some gb
ppu_loop (suc left) gb = do gb' ← ppu_dot gb; ppu_loop left gb'

-- `gb_ppu_step`
unfoldable pub ppu_step : Mgbx → ℕ → Option Mgbx
ppu_step gb t_cycles =
    if not (nonzero (bit_and gb.ppu.lcdc 0x80)) then some gb else ppu_loop t_cycles gb
