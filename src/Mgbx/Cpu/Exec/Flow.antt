-- ===== src/Mgbx/Cpu/Exec/Flow.antt =====
-- Jumps, calls, returns and the control of interrupts are safe, and with them `exec`.
use aarch.Prelude.{ℕ, arith, bit_and-le_right}
use aarch.Mgbx.Machine.{Machine, modify_cpu}
use aarch.Mgbx.Machine.Rules.{
  Safe, IsWord, AnyValue, pure-Safe, bind-Safe, then-Safe, when-Safe, get_cpu-Safe, modify_cpu-Safe,
}
use aarch.Mgbx.Cpu.Exec.Operands.{
  fetch-Safe, fetch16-Safe, push-Safe, pop16-Safe, cb_run-Safe, IsCycles, ends,
}
use aarch.Mgbx.Cpu.Exec.Jumps.{jump_by, jump_to, call, return, exec_jump, exec_call, exec_misc}
use aarch.Mgbx.Cpu.Exec.Memory.{exec_load8-Safe, exec_load_a-Safe, exec_load16-Safe}
use aarch.Mgbx.Cpu.Exec.Registers.{
  exec_alu8-Safe, exec_alu8_imm-Safe, exec_inc_dec-Safe, exec_rotate-Safe, exec_alu16-Safe,
}
use aarch.Mgbx.Cpu.Exec.{exec}

jump_by-Safe : (e : ℕ) → Safe (modify_cpu (jump_by e)) AnyValue
unfolding jump_by
jump_by-Safe e = modify_cpu-Safe _ (λ c h. ground arith)

jump_to-Safe : {a : ℕ} → IsWord a → Safe (jump_to a) AnyValue
unfolding jump_to
jump_to-Safe h = modify_cpu-Safe _ (λ c k. omega arith)

call-Safe : {a : ℕ} → IsWord a → Safe (call a) AnyValue
unfolding call
call-Safe h = bind-Safe get_cpu-Safe (λ c _. then-Safe (push-Safe _) (jump_to-Safe h))

return-Safe : Safe return AnyValue
unfolding return
return-Safe = bind-Safe pop16-Safe (λ a h. jump_to-Safe h)

pub exec_jump-Safe :
    {others : Machine ℕ} (op : ℕ) → Safe others IsCycles → Safe (exec_jump op others) IsCycles
unfolding exec_jump
exec_jump-Safe op h =
    when-Safe _ (bind-Safe fetch-Safe (λ e _. ends (jump_by-Safe e) (omega arith))) (
      when-Safe _
        (bind-Safe fetch-Safe (λ e _.
          bind-Safe get_cpu-Safe
            (λ c _. when-Safe _ (ends (jump_by-Safe e) (omega arith)) (pure-Safe _ (omega arith)))))
        (when-Safe _ (bind-Safe fetch16-Safe (λ a k. ends (jump_to-Safe k) (omega arith))) (
          when-Safe _
            (bind-Safe fetch16-Safe (λ a k. bind-Safe get_cpu-Safe (λ c _.
              when-Safe _ (ends (jump_to-Safe k) (omega arith)) (pure-Safe _ (omega arith)))))
            (when-Safe _ (ends (modify_cpu-Safe _ (λ c k. omega arith)) (omega arith)) h))))

pub exec_call-Safe :
    {others : Machine ℕ} (op : ℕ) → Safe others IsCycles → Safe (exec_call op others) IsCycles
unfolding exec_call
exec_call-Safe op h =
    when-Safe _ (bind-Safe fetch16-Safe (λ a k. ends (call-Safe k) (omega arith))) (
      when-Safe _
        (bind-Safe fetch16-Safe (λ a k.
          bind-Safe get_cpu-Safe
            (λ c _. when-Safe _ (ends (call-Safe k) (omega arith)) (pure-Safe _ (omega arith)))))
        (when-Safe _ (ends return-Safe (omega arith)) (
          when-Safe _
            (bind-Safe get_cpu-Safe
              (λ c _. when-Safe _ (ends return-Safe (omega arith)) (pure-Safe _ (omega arith))))
            (when-Safe _
              (then-Safe return-Safe (ends (modify_cpu-Safe _ (λ c k. omega arith)) (omega arith)))
              (when-Safe _
                (ends (call-Safe (omega (arith, bit_and-le_right op 0x38))) (omega arith)) h)))))

pub exec_misc-Safe :
    {others : Machine ℕ} (op : ℕ) → Safe others IsCycles → Safe (exec_misc op others) IsCycles
unfolding exec_misc
exec_misc-Safe op h = when-Safe _ (ends (modify_cpu-Safe _ (λ c k. omega arith)) (omega arith)) (
    when-Safe _ (ends (modify_cpu-Safe _ (λ c k. omega arith)) (omega arith)) (
      when-Safe _ (ends (modify_cpu-Safe _ (λ c k. omega arith)) (omega arith)) (
        when-Safe _
          (bind-Safe fetch-Safe
            (λ x _. bind-Safe (cb_run-Safe x) (λ t k. pure-Safe _ (omega arith))))
          h)))

-- From a valid machine the instruction of any opcode stays inside every array, leaves a valid
-- machine, and takes 4 to 24 cycles, a multiple of 4.
pub exec-Safe : (op : ℕ) → Safe (exec op) IsCycles
unfolding exec
exec-Safe op = exec_load8-Safe op (
    exec_load_a-Safe op (
      exec_load16-Safe op (
        exec_alu8-Safe op (
          exec_alu8_imm-Safe op (
            exec_inc_dec-Safe op (
              exec_rotate-Safe op (
                exec_alu16-Safe op (
                  exec_jump-Safe op
                    (exec_call-Safe op (exec_misc-Safe op (pure-Safe 4 (omega arith))))))))))))
