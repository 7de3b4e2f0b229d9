-- ===== src/Mgbx/Cpu/Exec/Jumps.antt =====
-- src/mgbx/cpu.c, `exec`: jumps, calls, returns, and the control of interrupts.
use aarch.Prelude.{ℕ, ◌+◌, bit_and, u16, ◌>>>◌, ◌==◌, leb, if◌then◌else◌, ◌||◌, Bool}
use aarch.Mgbx.State.{Cpu}
use aarch.Mgbx.Machine.{Machine, pure, when◌then◌else◌, ◌>>=◌, ◌>>◌, get_cpu, modify_cpu}
use aarch.Mgbx.Cpu.{hl}
use aarch.Mgbx.Cpu.Interrupts.{pop16}
use aarch.Mgbx.Cpu.Exec.Operand.{fetch, fetch16, push, cond, cb_run}

abbrev pub set_pc : ℕ → Cpu → Cpu
set_pc a c = record c { pc = a }

-- `c->pc + (uint16_t)(int16_t)e` with the `int8_t` of the byte `e`.
unfoldable pub jump_by : ℕ → Cpu → Cpu
jump_by e c = set_pc (u16 (c.pc + (if leb 128 e then e + 0xff00 else e))) c

abbrev pub condition : ℕ → Cpu → Bool
condition op c = cond c (bit_and (op >>> 3) 3)

unfoldable pub jump_to : ℕ → Machine (Unit {0})
jump_to a = modify_cpu (set_pc a)

unfoldable pub exec_jump : ℕ → Machine ℕ → Machine ℕ
exec_jump op others =
    when op == 0x18
    then (do e ← fetch; modify_cpu (jump_by e); pure 12)
    else when op == 0x20 || (op == 0x28 || (op == 0x30 || op == 0x38))
    then (do
      e ← fetch
      c ← get_cpu
      when condition op c then (do modify_cpu (jump_by e); pure 12) else pure 8)
    else when op == 0xc3
    then (do a ← fetch16; jump_to a; pure 16)
    else when op == 0xc2 || (op == 0xca || (op == 0xd2 || op == 0xda))
    then (do
      a ← fetch16
      c ← get_cpu
      when condition op c then (do jump_to a; pure 16) else pure 12)
    else when op == 0xe9
    then (do modify_cpu (λ c. set_pc (hl c) c); pure 4)
    else others

-- `push16(gb, c, c->pc); c->pc = a;`
unfoldable pub call : ℕ → Machine (Unit {0})
call a = do c ← get_cpu; push c.pc; jump_to a

-- `c->pc = pop16(gb, c);`
unfoldable pub return : Machine (Unit {0})
return = do a ← pop16; jump_to a

unfoldable pub exec_call : ℕ → Machine ℕ → Machine ℕ
exec_call op others =
    when op == 0xcd
    then (do a ← fetch16; call a; pure 24)
    else when op == 0xc4 || (op == 0xcc || (op == 0xd4 || op == 0xdc))
    then (do a ← fetch16; c ← get_cpu; when condition op c then (do call a; pure 24) else pure 12)
    else when op == 0xc9
    then (do return; pure 16)
    else when op == 0xc0 || (op == 0xc8 || (op == 0xd0 || op == 0xd8))
    then (do c ← get_cpu; when condition op c then (do return; pure 20) else pure 8)
    else when op == 0xd9
    then (do return; modify_cpu (λ c. record c { ime = 1 }); pure 16)
    else when op == 0xc7
        || (op == 0xcf
            || (op == 0xd7
                || (op == 0xdf || (op == 0xe7 || (op == 0xef || (op == 0xf7 || op == 0xff))))))
    then (do call (bit_and op 0x38); pure 16)
    else others

unfoldable pub exec_misc : ℕ → Machine ℕ → Machine ℕ
exec_misc op others =
    when op == 0xfb
    then (do modify_cpu (λ c. record c { ime_pending = 1 }); pure 4)
    else when op == 0xf3
    then (do modify_cpu (λ c. record c { ime = 0; ime_pending = 0 }); pure 4)
    else when op == 0x10
    then (do modify_cpu (λ c. record c { stopped = 1; pc = u16 (c.pc + 1) }); pure 4)
    else when op == 0xcb
    then (do x ← fetch; t ← cb_run x; pure (8 + t))
    else others
