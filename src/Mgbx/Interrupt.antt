-- ===== src/Mgbx/Interrupt.antt =====
-- `gb_request_interrupt` of src/mgbx/mem.c.
use aarch.Prelude.{ℕ, bit_or, u8, ◌<<<◌}
use aarch.Mgbx.State.{Mgbx}

-- Bits 0 to 4 are VBlank, STAT, Timer, Serial and Joypad.
unfoldable pub request_interrupt : Mgbx → ℕ → Mgbx
request_interrupt gb bit =
    let mem = gb.mem in
    record gb { mem = record mem { if_reg = bit_or mem.if_reg (u8 (1 <<< bit)) } }
