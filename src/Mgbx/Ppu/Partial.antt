-- ===== src/Mgbx/Ppu/Partial.antt =====
-- Any step of the PPU: outside of the background map it may read past VRAM, and else it keeps the
-- machine valid.
use aarch.Prelude.{
  branches, store_lem, ℕ, zero, suc, ◌+◌, ◌≤◌, ◌<◌, ◌≡◌, ◌⊎◌, inl, inr, refl, arith, bit_and, u8,
  u16, nonzero, ◌==◌, ltb, not, if◌then◌else◌, ◌&&◌, Bytes, IsBytes, Bool, true, false, update,
  Option, some, none,
}
use aarch.Mgbx.State.{Mgbx, Ppu}
use aarch.Mgbx.Machine.Valid.{IsValid, with_ppu}
use aarch.Mgbx.Ppu.Line.{
  screen_w, in_window, window_pixel, background_pixel, tiles_loop, draw_tiles,
}
use aarch.Mgbx.Ppu.Bounds.{TilesDrawn, clear_line-Some, compose_row-Some}
use aarch.Mgbx.Ppu.Painted.{draw_sprites-SpritesDrawn}
use aarch.Mgbx.Ppu.Position.{set_mode-IsValid, next_line-IsValid}
use aarch.Mgbx.Ppu.Step.{
  render_line, set_mode, next_line, ppu_dot, ppu_loop, ppu_step, mode_draw, mode_hblank,
}

-- The routine stops at an access outside of an array, or its result is a `P`.
abbrev pub OrOutside : {A : Type 0} → (Option A → Type 0) → Option A → Type 0
OrOutside P o = (o ≡ none) ⊎ P o

Option-cases : (o : Option ℕ) → (o ≡ none) ⊎ ((v : ℕ) × (o ≡ some v))
Option-cases none = inl refl
Option-cases (some v) = inr (v, refl)

tiles_loop-OrOutside :
    (left x : ℕ) (ppu : Ppu) (drawn : Bool)
    → left + x ≤ 160
    → OrOutside (TilesDrawn ppu) (tiles_loop left x ppu drawn)
unfolding tiles_loop
tiles_loop-OrOutside zero x ppu drawn fits = inr (drawn, ppu.line_pixels, refl)
tiles_loop-OrOutside (suc left) x ppu drawn fits =
    let drawn' = if in_window ppu x then true else drawn in
    let next : (v : ℕ)
        → OrOutside (TilesDrawn ppu) (
            tiles_loop left (x + 1) (record ppu { line_pixels = update ppu.line_pixels x v })
              drawn') =
      λ v.
        tiles_loop-OrOutside left (x + 1) (record ppu { line_pixels = update ppu.line_pixels x v })
          drawn' (omega arith) in
    elim (Option-cases (if in_window ppu x then window_pixel ppu x else background_pixel ppu x)) [
      | inl e ↦ inl (rw e refl)
      | inr (v, e) ↦
          rw (e, store_lem ppu.line_pixels {size = screen_w} {i = x} v (omega arith)) (next v)
    ]

draw_tiles-OrOutside : (ppu : Ppu) → OrOutside (TilesDrawn ppu) (draw_tiles ppu)
unfolding draw_tiles
draw_tiles-OrOutside ppu =
    let (cleared, e) = clear_line-Some screen_w 0 ppu.line_pixels (omega arith) in
    let clear : Ppu = record ppu { line_pixels = cleared } in
    rw e (
      branches (OrOutside (TilesDrawn ppu)) (nonzero (bit_and ppu.lcdc 0x01))
        (λ _. tiles_loop-OrOutside screen_w 0 clear false (omega arith))
        (λ _. inr (false, cleared, refl)))

-- The render of a visible line, wherever its background lies.
RenderDrawn : Ppu → Option Ppu → Type 0
RenderDrawn ppu o =
    (fb : Bytes) × (pixels : Bytes) × (marks : Bytes) × (w : ℕ) × (o
      ≡ some (record ppu { fb = fb; line_pixels = pixels; sprite_drawn = marks; win_line = w }))

render_line-OrOutside :
    (ppu : Ppu) → IsBytes ppu.oam → ppu.ly < 144 → OrOutside (RenderDrawn ppu) (render_line ppu)
unfolding render_line RenderDrawn
render_line-OrOutside ppu oam line = elim (draw_tiles-OrOutside ppu) [
  | inl e ↦ inl (rw e refl)
  | inr (drawn, pixels, e) ↦
      let ppu1 : Ppu = record ppu { line_pixels = pixels } in
      let (pixels', marks, e') = draw_sprites-SpritesDrawn ppu1 oam in
      let ppu2 : Ppu = record ppu1 { line_pixels = pixels'; sprite_drawn = marks } in
      let (fb, e'') = compose_row-Some screen_w 0 ppu2 line (omega arith) in
      inr (
        fb,
        pixels',
        marks,
        (if drawn then u8 (ppu.win_line + 1) else ppu.win_line),
        rw (e, e', e'') (ground arith),
      )
]

-- The result is a valid machine.
abbrev pub Keeps : Option Mgbx → Type 0
Keeps o = (gb : Mgbx) × (o ≡ some gb) × IsValid gb

ppu_dot-OrOutside : (gb : Mgbx) → IsValid gb → OrOutside Keeps (ppu_dot gb)
unfolding ppu_dot RenderDrawn
ppu_dot-OrOutside gb v =
    let dot = u16 (gb.ppu.dot + 1) in
    let gb' : Mgbx = record gb { ppu = record (gb.ppu) { dot = dot } } in
    let v' : IsValid gb' =
      with_ppu v (record { vram = v.ppu.vram; oam = v.ppu.oam; registers = v.ppu.registers }) in
    branches (OrOutside Keeps) (dot == 456) (λ _. inr (next_line gb', refl, next_line-IsValid v'))
      (λ _.
        branches (OrOutside Keeps) (ltb gb.ppu.ly 144 && dot == 80)
          (λ t. elim (render_line-OrOutside gb'.ppu v.ppu.oam (ground arith)) [
            | inl e ↦ inl (rw e refl)
            | inr (fb, pixels, marks, w, e) ↦ inr (
              set_mode
                  (record gb' {
                    ppu = record (gb'.ppu) {
                      fb = fb;
                      line_pixels = pixels;
                      sprite_drawn = marks;
                      win_line = w;
                    };
                  })
                  mode_draw,
              rw e refl,
              set_mode-IsValid 3 (
                  with_ppu v'
                    (record { vram = v.ppu.vram; oam = v.ppu.oam; registers = v.ppu.registers })),
            )
          ])
          (λ _.
            branches (OrOutside Keeps) (ltb gb.ppu.ly 144 && dot == 252)
              (λ _. inr (set_mode gb' mode_hblank, refl, set_mode-IsValid 0 v'))
              (λ _. inr (gb', refl, v'))))

ppu_loop-OrOutside : (n : ℕ) (gb : Mgbx) → IsValid gb → OrOutside Keeps (ppu_loop n gb)
unfolding ppu_loop
ppu_loop-OrOutside zero gb v = inr (gb, refl, v)
ppu_loop-OrOutside (suc n) gb v = elim (ppu_dot-OrOutside gb v) [
  | inl e ↦ inl (rw e refl)
  | inr (gb', e, v') ↦ rw e (ppu_loop-OrOutside n gb' v')
]

pub ppu_step-OrOutside : (gb : Mgbx) (n : ℕ) → IsValid gb → OrOutside Keeps (ppu_step gb n)
unfolding ppu_step
ppu_step-OrOutside gb n v =
    branches (OrOutside Keeps) (not (nonzero (bit_and gb.ppu.lcdc 0x80))) (λ _. inr (gb, refl, v))
      (λ _. ppu_loop-OrOutside n gb v)
