-- ===== src/Mgbx/Joypad.antt =====
-- src/mgbx/joypad.c: the P1 register over the select lines, and its press interrupt.
pub mod Lines
pub mod Press
mod Tests
use aarch.Prelude.{ℕ, ◌-◌, ◌^◌, bit_and, not8, nonzero, ◌==◌, if◌then◌else◌, Bool}
use aarch.Mgbx.State.{Mgbx, Joypad}
use aarch.Mgbx.Interrupt.{request_interrupt}

abbrev pub btn_a : ℕ
btn_a = 2 ^ 0

abbrev pub btn_b : ℕ
btn_b = 2 ^ 1

abbrev pub btn_select : ℕ
btn_select = 2 ^ 2

abbrev pub btn_start : ℕ
btn_start = 2 ^ 3

abbrev pub btn_right : ℕ
btn_right = 2 ^ 4

abbrev pub btn_left : ℕ
btn_left = 2 ^ 5

abbrev pub btn_up : ℕ
btn_up = 2 ^ 6

abbrev pub btn_down : ℕ
btn_down = 2 ^ 7

-- `if (b & button) keys &= (uint8_t)~line;`
abbrev press : ℕ → ℕ → ℕ → ℕ → ℕ
press b button line keys = if nonzero (bit_and b button) then bit_and keys (not8 line) else keys

unfoldable pub dirs : ℕ → ℕ
dirs b = press b btn_down 8 (press b btn_up 4 (press b btn_left 2 (press b btn_right 1 0x0f)))

unfoldable pub acts : ℕ → ℕ
acts b = press b btn_start 8 (press b btn_select 4 (press b btn_b 2 (press b btn_a 1 0x0f)))

unfoldable pub compose_p1 : Joypad → ℕ
unfolding dirs acts
compose_p1 jp =
    let p1 : ℕ = 0xcf in
    let sel = bit_and jp.select 0x30 in
    let p1' = if bit_and sel 0x10 == 0 then bit_and p1 (dirs jp.buttons) else p1 in
    if bit_and sel 0x20 == 0 then bit_and p1' (acts jp.buttons) else p1'

unfoldable pub joypad_read : Joypad → ℕ
joypad_read jp = compose_p1 jp

-- The machine with a new joypad, and the interrupt if a selected line went from 1 to 0.
abbrev change_lines : Mgbx → Joypad → Mgbx
change_lines gb jp' =
    let gb' = record gb { joypad = jp' } in
    if nonzero (bit_and (compose_p1 gb.joypad) (not8 (compose_p1 jp')))
    then request_interrupt gb' 4
    else gb'

unfoldable pub joypad_write : Mgbx → ℕ → Mgbx
joypad_write gb v = let jp = gb.joypad in change_lines gb (record jp { select = bit_and v 0x30 })

unfoldable pub joypad_set_buttons : Mgbx → ℕ → Mgbx
joypad_set_buttons gb buttons =
    let jp = gb.joypad in change_lines gb (record jp { buttons = bit_and buttons 0xff })
