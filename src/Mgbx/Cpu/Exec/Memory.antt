-- ===== src/Mgbx/Cpu/Exec/Memory.antt =====
-- The loads, the stack instructions and HALT are safe.
use aarch.Prelude.{
  ℕ, ◌<◌, refl, arith, u8, u16, bit_and, bit_and-le_right, bit_or, ◌<<<◌, ◌>>>◌, true,
}
use aarch.Mgbx.State.{Cpu}
use aarch.Mgbx.Machine.{Machine, pure, ◌>>=◌, ◌>>◌, rd, wr, get_cpu, modify_cpu}
use aarch.Mgbx.Machine.Valid.{CpuInRange, with_cpu}
use aarch.Mgbx.Machine.Rules.{
  Safe, IsWord, AnyValue, pure-Safe, bind-Safe, then-Safe, when-Safe, rd-Safe, wr-Safe,
  get_cpu-Safe, modify_cpu-Safe, call_cpu-Safe,
}
use aarch.Mgbx.Cpu.Exec.Operands.{
  fetch-Safe, fetch16-Safe, push-Safe, pop16-Safe, read_hl-Safe, write_hl-Safe, regval-Safe,
  setreg-Safe, IsCycles, ends,
}
use aarch.Mgbx.Cpu.{bc, de, hl, af, set_bc, set_de, set_hl}
use aarch.Mgbx.Cpu.Alu.{add_sp_e8}
use aarch.Mgbx.Cpu.Interrupts.{pop16}
use aarch.Mgbx.Cpu.Exec.Operand.{fetch, push}
use aarch.Mgbx.Cpu.Exec.Loads.{halt, set_a, exec_load8, exec_load_a, exec_load16}

halt-Safe : Safe halt IsCycles
unfolding halt
halt-Safe = record { run = λ gb v. (_, refl, omega arith, with_cpu v (ground (arith, v.cpu))) }

pub exec_load8-Safe :
    {others : Machine ℕ} (op : ℕ) → Safe others IsCycles → Safe (exec_load8 op others) IsCycles
unfolding exec_load8
exec_load8-Safe op h =
    when-Safe _ (bind-Safe (regval-Safe _) (λ v small. ends (setreg-Safe _ small) (ground arith))) (
      when-Safe _ (bind-Safe read_hl-Safe (λ v small. ends (setreg-Safe _ small) (omega arith))) (
        when-Safe _ halt-Safe (
          when-Safe _
            (bind-Safe (regval-Safe _) (λ v small. ends (write_hl-Safe small) (omega arith)))
            (when-Safe _
              (bind-Safe fetch-Safe (λ v small. ends (setreg-Safe _ small) (omega arith)))
              (when-Safe _
                (bind-Safe fetch-Safe (λ v small. ends (write_hl-Safe small) (omega arith))) h)))))

-- `c->a = v;`
set_a-Safe : {v : ℕ} → v < 256 → Safe (modify_cpu (set_a v)) AnyValue
set_a-Safe small = modify_cpu-Safe _ (λ c k. omega arith)

set_hl-Safe : (f : Cpu → ℕ) → Safe (modify_cpu (λ c. set_hl c (u16 (f c)))) AnyValue
set_hl-Safe f = modify_cpu-Safe _ (λ c k. omega arith)

-- `c->a = rd(gb, addr);`
read_a-Safe :
    (addr : ℕ) {t : ℕ}
    → IsCycles t
    → Safe (rd addr >>= λ v. modify_cpu (set_a v) >> pure t) IsCycles
read_a-Safe addr h = bind-Safe (rd-Safe addr) (λ v small. ends (set_a-Safe small) h)

-- `wr(gb, addr, c->a);`
write_a-Safe : (addr : ℕ) {v t : ℕ} → v < 256 → IsCycles t → Safe (wr addr v >> pure t) IsCycles
write_a-Safe addr small h = ends (wr-Safe addr small) h

pub exec_load_a-Safe :
    {others : Machine ℕ} (op : ℕ) → Safe others IsCycles → Safe (exec_load_a op others) IsCycles
unfolding exec_load_a
exec_load_a-Safe op h = when-Safe _ (bind-Safe get_cpu-Safe (λ c k. read_a-Safe _ (omega arith))) (
    when-Safe _ (bind-Safe get_cpu-Safe (λ c k. read_a-Safe _ (omega arith))) (
      when-Safe _ (bind-Safe fetch16-Safe (λ a k. read_a-Safe _ (omega arith))) (
        when-Safe _
          (bind-Safe fetch16-Safe
            (λ a _. bind-Safe get_cpu-Safe (λ c k. write_a-Safe a k.0 (omega arith))))
          (when-Safe _ (bind-Safe get_cpu-Safe (λ c k. write_a-Safe _ k.0 (omega arith))) (
            when-Safe _ (bind-Safe get_cpu-Safe (λ c k. write_a-Safe _ k.0 (omega arith))) (
              when-Safe _
                (bind-Safe get_cpu-Safe
                  (λ c k. then-Safe (wr-Safe _ (omega arith)) (ends (set_hl-Safe _) (omega arith))))
                (when-Safe _
                  (bind-Safe get_cpu-Safe (λ c k.
                    then-Safe (wr-Safe _ (omega arith)) (ends (set_hl-Safe _) (omega arith))))
                  (when-Safe _
                    (bind-Safe read_hl-Safe (λ v small.
                      then-Safe (set_a-Safe small) (ends (set_hl-Safe _) (omega arith))))
                    (when-Safe _
                      (bind-Safe read_hl-Safe (λ v small.
                        then-Safe (set_a-Safe small) (ends (set_hl-Safe _) (omega arith))))
                      (when-Safe _
                        (bind-Safe get_cpu-Safe (λ c k. write_a-Safe _ k.0 (omega arith)))
                        (when-Safe _ (bind-Safe get_cpu-Safe (λ c k. read_a-Safe _ (omega arith))) (
                          when-Safe _
                            (bind-Safe fetch-Safe (λ x _.
                              bind-Safe get_cpu-Safe (λ c k. write_a-Safe _ k.0 (omega arith))))
                            (when-Safe _ (bind-Safe fetch-Safe (λ x _. read_a-Safe _ (omega arith)))
                              (when-Safe _
                                (bind-Safe fetch-Safe
                                  (λ v small. ends (set_a-Safe small) (omega arith)))
                                h))))))))))))))

-- `c->lo = …; c->hi = …;` from the next two bytes.
load_pair-Safe :
    (lo hi : ℕ → Cpu → Cpu)
    → ((v : ℕ) (c : Cpu) → v < 256 → CpuInRange c → CpuInRange (lo v c) × CpuInRange (hi v c))
    → Safe
        (fetch >>= λ v. modify_cpu (lo v) >> (fetch >>= λ w. modify_cpu (hi w) >> pure 12))
        IsCycles
load_pair-Safe lo hi h = bind-Safe fetch-Safe (λ v small.
    then-Safe (modify_cpu-Safe _ (λ c k. (h v c small k).0)) (
      bind-Safe fetch-Safe
        (λ w small'. ends (modify_cpu-Safe _ (λ c k. (h w c small' k).1)) (omega arith))))

pop-Safe :
    (f : ℕ → Cpu → Cpu)
    → ((v : ℕ) (c : Cpu) → IsWord v → CpuInRange c → CpuInRange (f v c))
    → Safe (pop16 >>= λ v. modify_cpu (f v) >> pure 12) IsCycles
pop-Safe f h =
    bind-Safe pop16-Safe (λ v k. ends (modify_cpu-Safe _ (λ c k'. h v c k k')) (omega arith))

push_pair-Safe : (pair : Cpu → ℕ) → Safe (get_cpu >>= λ c. push (pair c) >> pure 16) IsCycles
push_pair-Safe pair = bind-Safe get_cpu-Safe (λ c _. ends (push-Safe _) (omega arith))

add_sp_e8-InRange :
    (e : ℕ) (c : Cpu)
    → CpuInRange c
    → AnyValue (add_sp_e8 c e true).0 × CpuInRange (add_sp_e8 c e true).1
unfolding add_sp_e8
add_sp_e8-InRange e c h = (tt, ground arith)

pub exec_load16-Safe :
    {others : Machine ℕ} (op : ℕ) → Safe others IsCycles → Safe (exec_load16 op others) IsCycles
unfolding exec_load16
exec_load16-Safe op h =
    when-Safe _
      (load_pair-Safe (λ v c. record c { c = v }) (λ v c. record c { b = v })
        (λ v c k k'. omega arith))
      (when-Safe _
        (load_pair-Safe (λ v c. record c { e = v }) (λ v c. record c { d = v })
          (λ v c k k'. omega arith))
        (when-Safe _
          (load_pair-Safe (λ v c. record c { l = v }) (λ v c. record c { h = v })
            (λ v c k k'. omega arith))
          (when-Safe _
            (load_pair-Safe (λ v c. record c { sp = v })
              (λ v c. record c { sp = u16 (bit_or c.sp (u16 (v <<< 8))) })
              (λ v c k k'. omega arith))
            (when-Safe _ (ends (modify_cpu-Safe _ (λ c k. omega arith)) (omega arith)) (
              when-Safe _
                (bind-Safe fetch-Safe (λ e _.
                  bind-Safe {P = AnyValue} (call_cpu-Safe _ (add_sp_e8-InRange e))
                    (λ r _. pure-Safe _ (omega arith))))
                (when-Safe _
                  (bind-Safe fetch16-Safe (λ a _. bind-Safe get_cpu-Safe (λ c _.
                    then-Safe (wr-Safe _ (omega (arith, bit_and-le_right c.sp 0xff))) (
                      bind-Safe get_cpu-Safe
                        (λ c' _. ends (wr-Safe _ (omega arith)) (omega arith))))))
                  (when-Safe _ (push_pair-Safe bc) (
                    when-Safe _ (push_pair-Safe de) (
                      when-Safe _ (push_pair-Safe hl) (
                        when-Safe _ (push_pair-Safe af) (
                          when-Safe _ (pop-Safe (λ v c. set_bc c v) (λ v c k k'. omega arith)) (
                            when-Safe _ (pop-Safe (λ v c. set_de c v) (λ v c k k'. omega arith)) (
                              when-Safe _ (pop-Safe (λ v c. set_hl c v) (λ v c k k'. omega arith)) (
                                when-Safe _
                                  (pop-Safe
                                    (λ v c. record c { a = u8 (v >>> 8); f = u8 (bit_and v 0xf0) })
                                    (λ v c k k'. omega arith))
                                  h))))))))))))))
