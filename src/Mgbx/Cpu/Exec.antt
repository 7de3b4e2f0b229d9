-- ===== src/Mgbx/Cpu/Exec.antt =====
-- src/mgbx/cpu.c: `exec`, by the groups of its `switch`. Each group takes what the other cases do.
pub mod Operand
pub mod Loads
pub mod Arithmetic
pub mod Jumps
pub mod Step
pub mod Operands
pub mod Memory
pub mod Registers
pub mod Flow
pub mod Progress
pub mod Nops
use aarch.Prelude.{ℕ}
use aarch.Mgbx.Machine.{Machine, pure}
use aarch.Mgbx.Cpu.Exec.Loads.{exec_load8, exec_load_a, exec_load16}
use aarch.Mgbx.Cpu.Exec.Arithmetic.{exec_alu8, exec_alu8_imm, exec_inc_dec, exec_rotate, exec_alu16}
use aarch.Mgbx.Cpu.Exec.Jumps.{exec_jump, exec_call, exec_misc}

-- `default` is a NOP.
unfoldable pub exec : ℕ → Machine ℕ
exec op = exec_load8 op (
    exec_load_a op (
      exec_load16 op (
        exec_alu8 op (
          exec_alu8_imm op (
            exec_inc_dec op (
              exec_rotate op
                (exec_alu16 op (exec_jump op (exec_call op (exec_misc op (pure 4)))))))))))
