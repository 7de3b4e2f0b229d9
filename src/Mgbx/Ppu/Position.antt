-- ===== src/Mgbx/Ppu/Position.antt =====
-- The positions of the beam, and what a change of mode or of line does to the PPU's registers.
use aarch.Prelude.{
  branches, ℕ, ◌+◌, ◌*◌, ◌/◌, ◌%◌, ◌<◌, ◌≡◌, refl, arith, bit_and, bit_or, bit_and_high,
  bit_or_fields, bit_or_step, u8, not8, ◌==◌, ltb, if◌then◌else◌,
}
use aarch.Mgbx.State.{Mgbx, Ppu}
use aarch.Mgbx.Interrupt.{request_interrupt}
use aarch.Mgbx.Machine.Valid.{IsValid}
use aarch.Mgbx.Machine.Writes.{request_interrupt-IsValid, check_lyc-IsValid, registers-IsValid}
use aarch.Mgbx.Ppu.{check_lyc}
use aarch.Mgbx.Ppu.Step.{set_mode, next_line}

abbrev pub dots_per_line : ℕ
dots_per_line = 456

abbrev pub dots_per_frame : ℕ
dots_per_frame = 154 * dots_per_line

-- The dot that begins line 144.
abbrev pub vblank_start : ℕ
vblank_start = 144 * dots_per_line

-- The mode bits of STAT at a position, as the code sets them: on the lines 145 to 153 they are
-- those of the OAM mode, where the header of ppu.c has VBlank.
abbrev pub mode_at : ℕ → ℕ
mode_at p =
    let line = p / dots_per_line in
    let dot = p % dots_per_line in
    if ltb line 144
    then (if ltb dot 80 then 2 else if ltb dot 252 then 3 else 0)
    else if line == 144
    then 1
    else 2

-- The VBlank bit of IF.
abbrev pub vblank : Mgbx → ℕ
vblank gb = gb.mem.if_reg % 2

-- What a change of the PPU leaves alone.
abbrev pub Steady : Ppu → Ppu → Type 0
Steady ppu ppu' =
    (ppu'.lcdc ≡ ppu.lcdc)
    × (ppu'.scy ≡ ppu.scy)
    × (ppu'.scx ≡ ppu.scx)
    × (ppu'.win_line ≡ ppu.win_line)

pub set_mode_stat :
    (stat mode : ℕ) → mode < 4 → u8 (bit_or (bit_and stat (not8 0x03)) mode) % 4 ≡ mode
set_mode_stat stat mode small =
    ground (arith, bit_and_high 2 stat 63, bit_or_fields 2 (bit_and (stat / 4) 63) mode)

-- A request of another interrupt leaves the VBlank bit.
pub stat_request : (x : ℕ) → bit_or x 2 % 2 ≡ x % 2
stat_request x = ground (arith, bit_or_step x 2)

pub vblank_request : (x : ℕ) → bit_or x 1 % 2 ≡ 1
vblank_request x = ground (arith, bit_or_step x 1)

pub set_mode_lem :
    (gb : Mgbx) (mode : ℕ)
    → mode < 4
    → Steady gb.ppu (set_mode gb mode).ppu
      × ((set_mode gb mode).ppu.ly ≡ gb.ppu.ly)
      × ((set_mode gb mode).ppu.dot ≡ gb.ppu.dot)
      × ((set_mode gb mode).ppu.stat % 4 ≡ mode)
      × (vblank (set_mode gb mode) ≡ vblank gb)
unfolding set_mode request_interrupt
set_mode_lem gb mode small =
    ground (arith, set_mode_stat gb.ppu.stat mode, stat_request gb.mem.if_reg)

pub check_lyc_lem :
    (gb : Mgbx)
    → Steady gb.ppu (check_lyc gb).ppu
      × ((check_lyc gb).ppu.ly ≡ gb.ppu.ly)
      × ((check_lyc gb).ppu.dot ≡ gb.ppu.dot)
      × (vblank (check_lyc gb) ≡ vblank gb)
unfolding check_lyc request_interrupt
check_lyc_lem gb = ground (arith, stat_request gb.mem.if_reg)

pub next_line_lem :
    (gb : Mgbx)
    → gb.ppu.ly < 154
    → Steady gb.ppu (next_line gb).ppu
      × ((next_line gb).ppu.ly ≡ (gb.ppu.ly + 1) % 154)
      × ((next_line gb).ppu.dot ≡ 0)
      × ((next_line gb).ppu.stat % 4 ≡ (if gb.ppu.ly == 143 then 1 else 2))
      × (vblank (next_line gb) ≡ (if gb.ppu.ly == 143 then 1 else vblank gb))
unfolding next_line request_interrupt
next_line_lem gb line =
    let wrapped : Mgbx = record gb { ppu = record (gb.ppu) { dot = 0; ly = 0 } } in
    let next : Mgbx = record gb { ppu = record (gb.ppu) { dot = 0; ly = u8 (gb.ppu.ly + 1) } } in
    ground (
      arith,
      check_lyc_lem wrapped,
      check_lyc_lem next,
      set_mode_lem (check_lyc wrapped) 2,
      set_mode_lem (check_lyc next) 1,
      set_mode_lem (check_lyc next) 2,
      vblank_request (set_mode (check_lyc next) 1).mem.if_reg,
    )

pub set_mode-IsValid : {gb : Mgbx} (mode : ℕ) → IsValid gb → IsValid (set_mode gb mode)
unfolding set_mode
set_mode-IsValid {gb} mode v =
    let kept =
      registers-IsValid
        (record (gb.ppu) { stat = u8 (bit_or (bit_and gb.ppu.stat (not8 0x03)) mode) }) v refl refl
        (ground (arith, v.ppu.registers)) in
    branches IsValid _ (λ _. request_interrupt-IsValid 1 kept) (λ _. kept)

pub next_line-IsValid : {gb : Mgbx} → IsValid gb → IsValid (next_line gb)
unfolding next_line
next_line-IsValid {gb} v =
    let moved : (line : ℕ)
        → line < 256
        → IsValid (check_lyc (record gb { ppu = record (gb.ppu) { dot = 0; ly = line } })) =
      λ line small.
        check_lyc-IsValid (registers-IsValid _ v refl refl (ground (arith, v.ppu.registers))) in
    branches IsValid (gb.ppu.ly == 153) (λ _. set_mode-IsValid 2 (moved 0 (omega arith)))
      (λ _.
        branches IsValid _
          (λ _.
            request_interrupt-IsValid 0
              (set_mode-IsValid 1 (moved (u8 (gb.ppu.ly + 1)) (omega arith))))
          (λ _. set_mode-IsValid 2 (moved (u8 (gb.ppu.ly + 1)) (omega arith))))
