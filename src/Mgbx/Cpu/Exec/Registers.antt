-- ===== src/Mgbx/Cpu/Exec/Registers.antt =====
-- The arithmetic instructions are safe.
use aarch.Prelude.{ℕ, arith, bit_and, bit_and-le_left, bit_or-lt_pow, bit_or, not8}
use aarch.Mgbx.State.{Cpu}
use aarch.Mgbx.Machine.{Machine, pure, ◌>>=◌, ◌>>◌, modify_cpu}
use aarch.Mgbx.Machine.Valid.{CpuInRange}
use aarch.Mgbx.Machine.Rules.{
  Safe, IsByte, AnyValue, bind-Safe, when-Safe, modify_cpu-Safe, call_cpu-Safe,
}
use aarch.Mgbx.Cpu.Exec.Operands.{
  fetch-Safe, read_hl-Safe, write_hl-Safe, regval-Safe, setreg-Safe, IsCycles, ends,
}
use aarch.Mgbx.Cpu.{fz, fh, fc, bc, de, hl}
use aarch.Mgbx.Cpu.Alu.{add8, sub8, and8, or8, xor8, inc8, dec8, add_hl, daa}
use aarch.Mgbx.Cpu.Exec.Operand.{fetch}
use aarch.Mgbx.Cpu.Exec.Arithmetic.{
  alu, cpl, ccf, scf, rlca, rrca, rla, rra, exec_alu8, exec_alu8_imm, exec_inc_dec, exec_rotate,
  exec_alu16,
}

alu-InRange : (row v : ℕ) (c : Cpu) → CpuInRange c → CpuInRange (alu row v c)
unfolding alu add8 sub8 and8 or8 xor8
alu-InRange row v c h = ground arith

inc8-InRange : (v : ℕ) (c : Cpu) → CpuInRange c → IsByte (inc8 c v).0 × CpuInRange (inc8 c v).1
unfolding inc8
inc8-InRange v c h = ground arith

dec8-InRange : (v : ℕ) (c : Cpu) → CpuInRange c → IsByte (dec8 c v).0 × CpuInRange (dec8 c v).1
unfolding dec8
dec8-InRange v c h = ground arith

alu-Safe : (row v : ℕ) → Safe (modify_cpu (alu row v)) AnyValue
alu-Safe row v = modify_cpu-Safe _ (alu-InRange row v)

pub exec_alu8-Safe :
    {others : Machine ℕ} (op : ℕ) → Safe others IsCycles → Safe (exec_alu8 op others) IsCycles
unfolding exec_alu8
exec_alu8-Safe op h =
    when-Safe _ (bind-Safe (regval-Safe _) (λ v _. ends (alu-Safe _ v) (ground arith))) h

-- `c->a = f(c, c->a, rd(gb, c->pc++));` and its like.
immediate-Safe : (row : ℕ) → Safe (fetch >>= λ v. modify_cpu (alu row v) >> pure 8) IsCycles
immediate-Safe row = bind-Safe fetch-Safe (λ v _. ends (alu-Safe row v) (omega arith))

pub exec_alu8_imm-Safe :
    {others : Machine ℕ} (op : ℕ) → Safe others IsCycles → Safe (exec_alu8_imm op others) IsCycles
unfolding exec_alu8_imm
exec_alu8_imm-Safe op h = when-Safe _ (immediate-Safe 0) (
    when-Safe _ (immediate-Safe 1) (
      when-Safe _ (immediate-Safe 2) (
        when-Safe _ (immediate-Safe 3) (
          when-Safe _ (immediate-Safe 4) (
            when-Safe _ (immediate-Safe 6)
              (when-Safe _ (immediate-Safe 5) (when-Safe _ (immediate-Safe 7) h)))))))

pub exec_inc_dec-Safe :
    {others : Machine ℕ} (op : ℕ) → Safe others IsCycles → Safe (exec_inc_dec op others) IsCycles
unfolding exec_inc_dec
exec_inc_dec-Safe op h =
    when-Safe _
      (bind-Safe (regval-Safe _) (λ v _.
        bind-Safe {P = IsByte} (call_cpu-Safe _ (inc8-InRange v))
          (λ w small. ends (setreg-Safe _ small) (ground arith))))
      (when-Safe _
        (bind-Safe read_hl-Safe (λ v _.
          bind-Safe {P = IsByte} (call_cpu-Safe _ (inc8-InRange v))
            (λ w small. ends (write_hl-Safe small) (omega arith))))
        (when-Safe _
          (bind-Safe (regval-Safe _) (λ v _.
            bind-Safe {P = IsByte} (call_cpu-Safe _ (dec8-InRange v))
              (λ w small. ends (setreg-Safe _ small) (ground arith))))
          (when-Safe _
            (bind-Safe read_hl-Safe (λ v _.
              bind-Safe {P = IsByte} (call_cpu-Safe _ (dec8-InRange v))
                (λ w small. ends (write_hl-Safe small) (omega arith))))
            h)))

-- An instruction that changes the registers only.
registers-Safe :
    (f : Cpu → Cpu) {t : ℕ}
    → ((c : Cpu) → CpuInRange c → CpuInRange (f c))
    → IsCycles t
    → Safe (modify_cpu f >> pure t) IsCycles
registers-Safe f h k = ends (modify_cpu-Safe f h) k

daa-InRange : (c : Cpu) → CpuInRange c → CpuInRange (daa c)
unfolding daa
daa-InRange c h = ground (
  arith,
  bit_or-lt_pow 8 c.f fc,
  bit_and-le_left c.f (not8 fh),
  bit_and-le_left (bit_or c.f fc) (not8 fh),
  bit_or-lt_pow 8 (bit_and c.f (not8 fh)) fz,
  bit_or-lt_pow 8 (bit_and (bit_or c.f fc) (not8 fh)) fz,
  bit_and-le_left (bit_and c.f (not8 fh)) (not8 fz),
  bit_and-le_left (bit_and (bit_or c.f fc) (not8 fh)) (not8 fz),
)

rotate-InRange :
    (c : Cpu)
    → CpuInRange c
    → CpuInRange (cpl c)
      × CpuInRange (ccf c)
      × CpuInRange (scf c)
      × CpuInRange (rlca c)
      × CpuInRange (rrca c)
      × CpuInRange (rla c)
      × CpuInRange (rra c)
unfolding cpl ccf scf rlca rrca rla rra
rotate-InRange c h = (
  omega (arith, bit_or-lt_pow 8 c.f 0x60),
  omega arith,
  omega arith,
  omega arith,
  omega arith,
  omega arith,
  omega arith,
)

pub exec_rotate-Safe :
    {others : Machine ℕ} (op : ℕ) → Safe others IsCycles → Safe (exec_rotate op others) IsCycles
unfolding exec_rotate
exec_rotate-Safe op h = when-Safe _ (registers-Safe daa daa-InRange (omega arith)) (
    when-Safe _ (registers-Safe cpl (λ c k. (rotate-InRange c k).0) (omega arith)) (
      when-Safe _ (registers-Safe ccf (λ c k. (rotate-InRange c k).1) (omega arith)) (
        when-Safe _ (registers-Safe scf (λ c k. (rotate-InRange c k).2) (omega arith)) (
          when-Safe _ (registers-Safe rlca (λ c k. (rotate-InRange c k).3) (omega arith)) (
            when-Safe _ (registers-Safe rrca (λ c k. (rotate-InRange c k).4) (omega arith)) (
              when-Safe _ (registers-Safe rla (λ c k. (rotate-InRange c k).5) (omega arith)) (
                when-Safe _ (registers-Safe rra (λ c k. (rotate-InRange c k).6) (omega arith))
                  h)))))))

add_hl-InRange : (f : Cpu → ℕ) (c : Cpu) → CpuInRange c → CpuInRange (add_hl c (f c))
unfolding add_hl
add_hl-InRange f c h = omega arith

pub exec_alu16-Safe :
    {others : Machine ℕ} (op : ℕ) → Safe others IsCycles → Safe (exec_alu16 op others) IsCycles
unfolding exec_alu16
exec_alu16-Safe op h = when-Safe _ (registers-Safe _ (add_hl-InRange bc) (omega arith)) (
    when-Safe _ (registers-Safe _ (add_hl-InRange de) (omega arith)) (
      when-Safe _ (registers-Safe _ (add_hl-InRange hl) (omega arith)) (
        when-Safe _ (registers-Safe _ (add_hl-InRange (λ c. c.sp)) (omega arith)) (
          when-Safe _ (registers-Safe _ (λ c k. omega arith) (omega arith)) (
            when-Safe _ (registers-Safe _ (λ c k. omega arith) (omega arith)) (
              when-Safe _ (registers-Safe _ (λ c k. omega arith) (omega arith)) (
                when-Safe _ (registers-Safe _ (λ c k. omega arith) (omega arith)) (
                  when-Safe _ (registers-Safe _ (λ c k. omega arith) (omega arith)) (
                    when-Safe _ (registers-Safe _ (λ c k. omega arith) (omega arith)) (
                      when-Safe _ (registers-Safe _ (λ c k. omega arith) (omega arith)) (
                        when-Safe _ (registers-Safe _ (λ c k. omega arith) (omega arith))
                          h)))))))))))
