-- ===== src/Mgbx/Cpu/Exec/Loads.antt =====
-- src/mgbx/cpu.c, `exec`: loads, the stack, and HALT, whose label stands among the loads.
use aarch.Prelude.{
  ℕ, ◌+◌, ◌-◌, ◌^◌, bit_and, bit_or, u8, u16, ◌<<<◌, ◌>>>◌, nonzero, ◌==◌, not, of_bool,
  if◌then◌else◌, ◌&&◌, ◌||◌, Bool, true, some,
}
use aarch.Mgbx.State.{Cpu}
use aarch.Mgbx.Machine.{
  Machine, pure, when◌then◌else◌, ◌>>=◌, ◌>>◌, rd, wr, get_cpu, modify_cpu, call_cpu,
}
use aarch.Mgbx.Cpu.{bc, de, hl, af, set_bc, set_de, set_hl}
use aarch.Mgbx.Cpu.Alu.{add_sp_e8}
use aarch.Mgbx.Cpu.Interrupts.{pop16}
use aarch.Mgbx.Cpu.Exec.Operand.{
  between, fetch, fetch16, push, read_hl, write_hl, regval, setreg, hlpen,
}

unfoldable pub halt : Machine ℕ
halt gb =
    let pending = bit_and (bit_and gb.mem.if_reg gb.mem.ie) 0x1f in
    let c = gb.cpu in
    let halted = nonzero c.ime || pending == 0 in
    some (
      4,
      record gb {
        cpu = record c { halted = of_bool halted; halt_bug = if halted then c.halt_bug else 1 };
      },
    )

-- The labels of `LD r,r'`, without those of (HL).
abbrev pub is_load : ℕ → Bool
is_load op = (between 0x40 0x6f op || between 0x78 0x7f op) && not (bit_and op 7 == 6)

unfoldable pub exec_load8 : ℕ → Machine ℕ → Machine ℕ
exec_load8 op others =
    let dst = bit_and (op >>> 3) 7 in
    let src = bit_and op 7 in
    when is_load op
    then (do v ← regval src; setreg dst v; pure (4 + hlpen src))
    else when op == 0x46
        || (op == 0x4e || (op == 0x56 || (op == 0x5e || (op == 0x66 || op == 0x6e))))
    then (do v ← read_hl; setreg dst v; pure 8)
    else when op == 0x76
    then halt
    else when between 0x70 0x75 op || op == 0x77
    then (do v ← regval src; write_hl v; pure 8)
    else when op == 0x06
        || (op == 0x0e || (op == 0x16 || (op == 0x1e || (op == 0x26 || op == 0x2e))))
    then (do v ← fetch; setreg dst v; pure 8)
    else when op == 0x36
    then (do v ← fetch; write_hl v; pure 12)
    else others

abbrev pub set_a : ℕ → Cpu → Cpu
set_a v c = record c { a = v }

-- `0xFF00u | x`
abbrev pub high_page : ℕ → ℕ
high_page x = u16 (bit_or 0xff00 x)

unfoldable pub exec_load_a : ℕ → Machine ℕ → Machine ℕ
exec_load_a op others =
    when op == 0x0a
    then (do c ← get_cpu; v ← rd (bc c); modify_cpu (set_a v); pure 8)
    else when op == 0x1a
    then (do c ← get_cpu; v ← rd (de c); modify_cpu (set_a v); pure 8)
    else when op == 0xfa
    then (do a ← fetch16; v ← rd a; modify_cpu (set_a v); pure 16)
    else when op == 0xea
    then (do a ← fetch16; c ← get_cpu; wr a c.a; pure 16)
    else when op == 0x02
    then (do c ← get_cpu; wr (bc c) c.a; pure 8)
    else when op == 0x12
    then (do c ← get_cpu; wr (de c) c.a; pure 8)
    else when op == 0x22
    then (do c ← get_cpu; wr (hl c) c.a; modify_cpu (λ c'. set_hl c' (u16 (hl c' + 1))); pure 8)
    else when op == 0x32
    then (do
      c ← get_cpu
      wr (hl c) c.a
      modify_cpu (λ c'. set_hl c' (u16 (hl c' + 2 ^ 16 - 1)))
      pure 8)
    else when op == 0x2a
    then (do
      v ← read_hl
      modify_cpu (set_a v)
      modify_cpu (λ c'. set_hl c' (u16 (hl c' + 1)))
      pure 8)
    else when op == 0x3a
    then (do
      v ← read_hl
      modify_cpu (set_a v)
      modify_cpu (λ c'. set_hl c' (u16 (hl c' + 2 ^ 16 - 1)))
      pure 8)
    else when op == 0xe2
    then (do c ← get_cpu; wr (high_page c.c) c.a; pure 8)
    else when op == 0xf2
    then (do c ← get_cpu; v ← rd (high_page c.c); modify_cpu (set_a v); pure 8)
    else when op == 0xe0
    then (do x ← fetch; c ← get_cpu; wr (high_page x) c.a; pure 12)
    else when op == 0xf0
    then (do x ← fetch; v ← rd (high_page x); modify_cpu (set_a v); pure 12)
    else when op == 0x3e
    then (do v ← fetch; modify_cpu (set_a v); pure 8)
    else others

unfoldable pub exec_load16 : ℕ → Machine ℕ → Machine ℕ
exec_load16 op others =
    when op == 0x01
    then (do
      lo ← fetch
      modify_cpu (λ c. record c { c = lo })
      hi ← fetch
      modify_cpu (λ c. record c { b = hi })
      pure 12)
    else when op == 0x11
    then (do
      lo ← fetch
      modify_cpu (λ c. record c { e = lo })
      hi ← fetch
      modify_cpu (λ c. record c { d = hi })
      pure 12)
    else when op == 0x21
    then (do
      lo ← fetch
      modify_cpu (λ c. record c { l = lo })
      hi ← fetch
      modify_cpu (λ c. record c { h = hi })
      pure 12)
    else when op == 0x31
    then (do
      lo ← fetch
      modify_cpu (λ c. record c { sp = lo })
      hi ← fetch
      modify_cpu (λ c. record c { sp = u16 (bit_or c.sp (u16 (hi <<< 8))) })
      pure 12)
    else when op == 0xf9
    then (do modify_cpu (λ c. record c { sp = hl c }); pure 8)
    else when op == 0xf8
    then (do e ← fetch; r ← call_cpu (λ c. add_sp_e8 c e true); pure 12)
    else when op == 0x08
    then (do
      a ← fetch16
      c ← get_cpu
      wr a (bit_and c.sp 0xff)
      c' ← get_cpu
      wr (u16 (a + 1)) (u8 (c'.sp >>> 8))
      pure 20)
    else when op == 0xc5
    then (do c ← get_cpu; push (bc c); pure 16)
    else when op == 0xd5
    then (do c ← get_cpu; push (de c); pure 16)
    else when op == 0xe5
    then (do c ← get_cpu; push (hl c); pure 16)
    else when op == 0xf5
    then (do c ← get_cpu; push (af c); pure 16)
    else when op == 0xc1
    then (do v ← pop16; modify_cpu (λ c. set_bc c v); pure 12)
    else when op == 0xd1
    then (do v ← pop16; modify_cpu (λ c. set_de c v); pure 12)
    else when op == 0xe1
    then (do v ← pop16; modify_cpu (λ c. set_hl c v); pure 12)
    else when op == 0xf1
    then (do
      v ← pop16
      modify_cpu (λ c. record c { a = u8 (v >>> 8); f = u8 (bit_and v 0xf0) })
      pure 12)
    else others
