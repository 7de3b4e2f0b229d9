-- ===== src/Mgbx/Ppu/Beam.antt =====
-- `gb_ppu_step` against the beam: a position that goes round the 154 lines of 456 dots.
use aarch.Prelude.{
  branches, ℕ, zero, suc, ◌+◌, ◌-◌, ◌/◌, ◌%◌, ◌<◌, ◌≡◌, refl, arith, bit_and, u16, nonzero, ◌==◌,
  ltb, if◌then◌else◌, ◌&&◌, Bool, true, Option, some,
}
use mathlib.Core.Option
use aarch.Mgbx.State.{Mgbx, Ppu}
use aarch.Mgbx.Machine.Valid.{IsValid, with_ppu}
use aarch.Mgbx.Ppu.Bounds.{InView, render_line-Drawn}
use aarch.Mgbx.Ppu.Step.{
  set_mode, next_line, ppu_dot, ppu_loop, ppu_step, render_line, mode_draw, mode_hblank,
}
use aarch.Mgbx.Ppu.Position.{
  dots_per_line, dots_per_frame, vblank_start, mode_at, vblank, set_mode_lem, next_line_lem,
  set_mode-IsValid, next_line-IsValid,
}

-- A machine whose LCD is on, with the beam at a position: the line, the dot and the mode bits are
-- those of the position, and the background of every line lies inside its map.
pub record Beam (gb : Mgbx) (p : ℕ) : Type 0 where
  pub valid : IsValid gb
  pub view : InView gb.ppu
  pub win_line : gb.ppu.win_line < 256
  pub on : nonzero (bit_and gb.ppu.lcdc 0x80) ≡ true
  pub inside : p < dots_per_frame
  pub ly : gb.ppu.ly ≡ p / dots_per_line
  pub dot : gb.ppu.dot ≡ p % dots_per_line
  pub mode : gb.ppu.stat % 4 ≡ mode_at p

-- The next position, and the VBlank bit there.
abbrev next_position : ℕ → ℕ
next_position p = (p + 1) % dots_per_frame

abbrev next_vblank : ℕ → ℕ → ℕ
next_vblank p v = if next_position p == vblank_start then 1 else v

-- One dot moves the beam by one position.
abbrev Moves : Mgbx → ℕ → Option Mgbx → Type 0
Moves gb p o =
    (gb' : Mgbx) × (o ≡ some gb')
    × Beam gb' (next_position p)
    × (vblank gb' ≡ next_vblank p (vblank gb))

-- What a dot that ends no line comes to.
stays :
    {gb : Mgbx} {p : ℕ} (gb' : Mgbx)
    → Beam gb p
    → IsValid gb'
    → (gb'.ppu.lcdc ≡ gb.ppu.lcdc) × (gb'.ppu.scy ≡ gb.ppu.scy) × (gb'.ppu.scx ≡ gb.ppu.scx)
    → gb'.ppu.win_line < 256
    → (gb'.ppu.ly ≡ gb.ppu.ly) × (gb'.ppu.dot ≡ gb.ppu.dot + 1) × (gb.ppu.dot < 455)
    → gb'.ppu.stat % 4 ≡ mode_at (p + 1)
    → vblank gb' ≡ vblank gb
    → Moves gb p (some gb')
stays {gb} {p} gb' b v same window place mode bit = (
  gb',
  refl,
  record {
    valid = v;
    view = rw (same.0, same.1, same.2) b.view;
    win_line = window;
    on = rw same.0 b.on;
    inside = omega arith;
    ly = omega (arith, b.ly, b.dot, b.inside);
    dot = omega (arith, b.ly, b.dot, b.inside);
    mode = ground (arith, b.ly, b.dot, b.inside);
  },
  ground (arith, b.ly, b.dot, b.inside),
)

-- The dot is counted: everything else stands.
counted : Mgbx → Mgbx
counted gb = record gb { ppu = record (gb.ppu) { dot = u16 (gb.ppu.dot + 1) } }

counted-IsValid : {gb : Mgbx} → IsValid gb → IsValid (counted gb)
unfolding counted
counted-IsValid {gb} v =
    with_ppu v (record { vram = v.ppu.vram; oam = v.ppu.oam; registers = v.ppu.registers })

end_of_line-Moves :
    {gb : Mgbx} {p : ℕ} → Beam gb p → gb.ppu.dot ≡ 455 → Moves gb p (some (next_line (counted gb)))
unfolding counted
end_of_line-Moves {gb} {p} b last =
    let facts = next_line_lem (counted gb) (omega (arith, b.ly, b.inside)) in
    (
      next_line (counted gb),
      refl,
      record {
        valid = next_line-IsValid (counted-IsValid b.valid);
        view = rw (facts.0.0, facts.0.1, facts.0.2) b.view;
        win_line = omega (arith, facts.0, b.win_line);
        on = rw facts.0.0 b.on;
        inside = omega arith;
        ly = omega (arith, facts, b.ly, b.dot, b.inside, last);
        dot = omega (arith, facts, b.ly, b.dot, b.inside, last);
        mode = ground (arith, facts, b.ly, b.dot, b.inside, last);
      },
      ground (arith, facts, b.ly, b.dot, b.inside, last),
    )

render-Moves :
    {gb : Mgbx} {p : ℕ}
    → Beam gb p
    → gb.ppu.dot ≡ 79
    → gb.ppu.ly < 144
    → Moves gb p (
        Option.map
          (λ ppu. set_mode (record (counted gb) { ppu = ppu }) mode_draw)
          (render_line (counted gb).ppu))
unfolding counted
render-Moves {gb} {p} b here line =
    let v = b.valid in
    let (fb, pixels, marks, w, small, e) =
      render_line-Drawn (counted gb).ppu v.ppu.vram v.ppu.oam
        (b.view, line, v.ppu.registers.2, v.ppu.registers.3, b.win_line) in
    let drawn : Ppu = record ((counted gb).ppu) {
      fb = fb;
      line_pixels = pixels;
      sprite_drawn = marks;
      win_line = w;
    } in
    let gb' : Mgbx = record (counted gb) { ppu = drawn } in
    let facts = set_mode_lem gb' 3 (omega arith) in
    let kept : IsValid gb' =
      with_ppu v (record { vram = v.ppu.vram; oam = v.ppu.oam; registers = v.ppu.registers }) in
    rw e (
      stays (set_mode gb' mode_draw) b (set_mode-IsValid 3 kept) (omega (arith, facts))
        (omega (arith, facts)) (omega (arith, facts))
        (ground (arith, facts, b.ly, b.dot, b.inside, here)) (omega (arith, facts)))

hblank-Moves :
    {gb : Mgbx} {p : ℕ}
    → Beam gb p
    → gb.ppu.dot ≡ 251
    → gb.ppu.ly < 144
    → Moves gb p (some (set_mode (counted gb) mode_hblank))
unfolding counted
hblank-Moves {gb} {p} b here line =
    let facts = set_mode_lem (counted gb) 0 (omega arith) in
    stays (set_mode (counted gb) mode_hblank) b (set_mode-IsValid 0 (counted-IsValid b.valid))
      (omega (arith, facts)) (omega (arith, facts, b.win_line)) (omega (arith, facts))
      (ground (arith, facts, b.ly, b.dot, b.inside, here)) (omega (arith, facts))

ppu_dot-Moves : (gb : Mgbx) {p : ℕ} → Beam gb p → Moves gb p (ppu_dot gb)
unfolding ppu_dot counted
ppu_dot-Moves gb {p} b =
    let dot = u16 (gb.ppu.dot + 1) in
    branches (Moves gb p) (dot == 456) (λ t. end_of_line-Moves b (ground (arith, b.dot)))
      (λ f.
        branches (Moves gb p) (ltb gb.ppu.ly 144 && dot == 80)
          (λ t. render-Moves b (ground (arith, b.dot)) (ground arith))
          (λ f'.
            branches (Moves gb p) (ltb gb.ppu.ly 144 && dot == 252)
              (λ t. hblank-Moves b (ground (arith, b.dot)) (ground arith))
              (λ f''.
                stays (counted gb) b (counted-IsValid b.valid) (refl, refl, refl) b.win_line
                  (ground (arith, b.dot)) (ground (arith, b.ly, b.dot, b.inside, b.mode)) refl)))

-- Whether the beam enters line 144 in the `n` dots after the position `p`.
abbrev pub enters_vblank : ℕ → ℕ → Bool
enters_vblank p n =
    let after = dots_per_frame - vblank_start in
    ltb ((p + after) / dots_per_frame) ((p + n + after) / dots_per_frame)

ppu_loop-Moves :
    (n : ℕ) (gb : Mgbx) {p : ℕ}
    → Beam gb p
    → (gb' : Mgbx) × (ppu_loop n gb ≡ some gb')
      × Beam gb' ((p + n) % dots_per_frame)
      × (vblank gb' ≡ (if enters_vblank p n then 1 else vblank gb))
unfolding ppu_loop
ppu_loop-Moves zero gb {p} b = (
  gb,
  refl,
  record {
    valid = b.valid;
    view = b.view;
    win_line = b.win_line;
    on = b.on;
    inside = omega arith;
    ly = omega (arith, b.ly, b.inside);
    dot = omega (arith, b.dot, b.inside);
    mode = ground (arith, b.mode, b.inside);
  },
  ground (arith, b.inside),
)
ppu_loop-Moves (suc n) gb {p} b =
    let (gb1, e, b1, bit) = ppu_dot-Moves gb b in
    let (gb2, e', b2, bit') = ppu_loop-Moves n gb1 b1 in
    let place : (next_position p + n) % dots_per_frame ≡ (p + suc n) % dots_per_frame =
      omega (arith, b.inside) in
    (gb2, rw e e', rw place at b2, ground (arith, bit, bit', b.inside))

-- While the LCD is on and the background lies inside its map, a step of the PPU by any number of
-- cycles succeeds, and refines the beam: from the position p it moves to (p + n) % 70224, LY and
-- the mode bits of STAT being those of the new position; the VBlank interrupt is requested when the
-- beam enters line 144 on the way, and else its bit of IF stands. The mode bits are 2, 3 and 0 for
-- the OAM scan, the drawing and the HBlank of the lines 0 to 143, and 1 on line 144; on the lines
-- 145 to 153, which ppu.c's header calls VBlank, they are 2, the OAM mode, as the code sets them.
pub ppu_step-Beam :
    (gb : Mgbx) (p n : ℕ)
    → Beam gb p
    → (gb' : Mgbx) × (ppu_step gb n ≡ some gb')
      × Beam gb' ((p + n) % dots_per_frame)
      × (vblank gb' ≡ (if enters_vblank p n then 1 else vblank gb))
unfolding ppu_step
ppu_step-Beam gb p n b = rw b.on (ppu_loop-Moves n gb b)
