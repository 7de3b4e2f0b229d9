-- ===== src/Mgbx/Joypad/Tests.antt =====
-- The joypad at concrete states.
use aarch.Prelude.{◌≡◌, arith}
use aarch.Mgbx.State.{Mgbx, Joypad}
use aarch.Mgbx.Interrupt.{request_interrupt}
use aarch.Mgbx.Fixtures.{machine, held_right}
use aarch.Mgbx.Joypad.{joypad_read, joypad_write}
use aarch.Mgbx.Joypad.Lines.{joypad_read_lines}
use aarch.Mgbx.Joypad.Press.{joypad_write_interrupt}

abbrev free_pad : Joypad
free_pad = record { select = 0x30; p1 = 0; buttons = 0 }

abbrev free : Mgbx
free = record machine { joypad = free_pad }

joypad_read_lines_example : joypad_read held_right ≡ 0x0e
joypad_read_lines_example = joypad_read_lines held_right (omega arith) (omega arith)

-- No button is held, and selecting the direction keys requests an interrupt all the same.
joypad_write_interrupt_example :
    joypad_write free 0x20
    ≡ request_interrupt (record free { joypad = record free_pad { select = 0x20 } }) 4
joypad_write_interrupt_example =
    joypad_write_interrupt free 0x20 (omega arith) (omega arith) (omega arith)
