-- ===== src/Mgbx/Cpu/Exec/Operand.antt =====
-- src/mgbx/cpu.c: operands of the instructions, and the CB page.
use aarch.Prelude.{
  ℕ, ◌+◌, ◌^◌, bit_and, bit_or, u8, u16, not8, ◌<<<◌, ◌>>>◌, nonzero, ◌==◌, leb, not, if◌then◌else◌,
  ◌&&◌, Bool,
}
use mathlib.Core.Option
use aarch.Mgbx.State.{Cpu}
use aarch.Mgbx.Machine.{
  Machine, pure, when◌then◌else◌, ◌>>=◌, ◌>>◌, rd, wr, get_cpu, modify_cpu, call_cpu,
}
use aarch.Mgbx.Cpu.{fz, fh, fc, hl}
use aarch.Mgbx.Cpu.Alu.{cb_shift}
use aarch.Mgbx.Cpu.Interrupts.{push16}

abbrev pub between : ℕ → ℕ → ℕ → Bool
between low high op = leb low op && leb op high

-- `rd(gb, c->pc++)`
unfoldable pub fetch : Machine ℕ
fetch = do c ← get_cpu; modify_cpu (λ c'. record c' { pc = u16 (c'.pc + 1) }); rd c.pc

-- `tmp = rd(gb, c->pc++); tmp |= (uint16_t)(rd(gb, c->pc++) << 8);`
unfoldable pub fetch16 : Machine ℕ
fetch16 = do lo ← fetch; hi ← fetch; pure (bit_or lo (u16 (hi <<< 8)))

unfoldable pub push : ℕ → Machine (Unit {0})
push v gb = Option.map (λ gb'. (tt, gb')) (push16 gb v)

unfoldable pub cond : Cpu → ℕ → Bool
cond c idx =
    if idx == 0
    then not (nonzero (bit_and c.f fz))
    else if idx == 1
    then nonzero (bit_and c.f fz)
    else if idx == 2
    then not (nonzero (bit_and c.f fc))
    else nonzero (bit_and c.f fc)

unfoldable pub read_hl : Machine ℕ
read_hl = do c ← get_cpu; rd (hl c)

unfoldable pub write_hl : ℕ → Machine (Unit {0})
write_hl v = do c ← get_cpu; wr (hl c) v

-- The register of an index other than 6.
unfoldable pub reg_get : Cpu → ℕ → ℕ
reg_get c idx =
    if idx == 0
    then c.b
    else if idx == 1
    then c.c
    else if idx == 2
    then c.d
    else if idx == 3
    then c.e
    else if idx == 4
    then c.h
    else if idx == 5
    then c.l
    else c.a

unfoldable pub reg_set : Cpu → ℕ → ℕ → Cpu
reg_set c idx v =
    if idx == 0
    then record c { b = v }
    else if idx == 1
    then record c { c = v }
    else if idx == 2
    then record c { d = v }
    else if idx == 3
    then record c { e = v }
    else if idx == 4
    then record c { h = v }
    else if idx == 5
    then record c { l = v }
    else record c { a = v }

unfoldable pub regval : ℕ → Machine ℕ
regval idx = do c ← get_cpu; when idx == 6 then read_hl else pure (reg_get c idx)

unfoldable pub setreg : ℕ → ℕ → Machine (Unit {0})
setreg idx v = when idx == 6 then write_hl v else modify_cpu (λ c. reg_set c idx v)

abbrev pub hlpen : ℕ → ℕ
hlpen idx = if idx == 6 then 4 else 0

-- SWAP: the byte, and F.
unfoldable pub swap : Cpu → ℕ → ℕ × Cpu
swap c v = let r = u8 (bit_or (v <<< 4) (v >>> 4)) in (r, record c { f = if r == 0 then fz else 0 })

unfoldable pub test_bit : ℕ → ℕ → Cpu → Cpu
test_bit y v c = record c {
  f = u8 (bit_or (bit_or (bit_and c.f fc) fh) (if nonzero (bit_and (v >>> y) 1) then 0 else fz));
}

unfoldable pub shift_or_swap : ℕ → ℕ → Machine ℕ
shift_or_swap y v = when y == 6 then call_cpu (λ c. swap c v) else call_cpu (λ c. cb_shift c y v)

-- The (HL) forms, with the extra cycles.
unfoldable pub cb_memory : ℕ → ℕ → Machine ℕ
cb_memory x y = do
  c ← get_cpu
  let a = hl c
  v ← rd a
  when x == 0
      then (do r ← shift_or_swap y v; wr a r; pure 8)
      else when x == 1
      then (do modify_cpu (test_bit y v); pure 4)
      else when x == 2
      then (do wr a (u8 (bit_and v (not8 (2 ^ y)))); pure 8)
      else (do wr a (u8 (bit_or v (2 ^ y))); pure 8)

-- `*p = …` for the register `z`.
unfoldable pub put_reg : ℕ → ℕ → Machine ℕ
put_reg z v = do modify_cpu (λ c. reg_set c z v); pure 0

unfoldable pub cb_register : ℕ → ℕ → ℕ → Machine ℕ
cb_register x y z = do
  c ← get_cpu
  let v = reg_get c z
  when x == 0
      then (do r ← shift_or_swap y v; put_reg z r)
      else when x == 1
      then (do modify_cpu (test_bit y v); pure 0)
      else when x == 2
      then put_reg z (u8 (bit_and v (not8 (2 ^ y))))
      else put_reg z (u8 (bit_or v (2 ^ y)))

unfoldable pub cb_run : ℕ → Machine ℕ
cb_run op =
    let x = u8 (op >>> 6) in
    let y = bit_and (op >>> 3) 7 in
    let z = bit_and op 7 in when z == 6 then cb_memory x y else cb_register x y z
