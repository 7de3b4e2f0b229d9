-- ===== src/Mgbx/Cpu/Alu.antt =====
-- src/mgbx/cpu.c: the arithmetic of the SM83 with its flags, DAA, and the shifts of the CB page.
pub mod Sums
pub mod Decimal
pub mod Rotate
use aarch.Prelude.{
  ℕ, ◌+◌, ◌-◌, ◌*◌, ◌^◌, bit_and, bit_or, bit_xor, u8, u16, u32, not8, ◌<<<◌, ◌>>>◌, nonzero, ◌==◌,
  ltb, not, if◌then◌else◌, ◌||◌, Bool,
}
use aarch.Mgbx.State.{Cpu}
use aarch.Mgbx.Cpu.{fz, fn, fh, fc, hl, set_hl}

-- `if (test) f |= flag;`
abbrev raise : Bool → ℕ → ℕ → ℕ
raise test flag f = if test then bit_or f flag else f

-- `test ? flag : 0`
abbrev flag_if : Bool → ℕ → ℕ
flag_if test flag = if test then flag else 0

unfoldable pub add8 : Cpu → ℕ → ℕ → ℕ → ℕ × Cpu
add8 c a b carry =
    let r = u32 (a + b + carry) in
    let res = u8 r in
    let f = raise (res == 0) fz 0 in
    let f' = raise (ltb 0xf (bit_and a 0xf + bit_and b 0xf + carry)) fh f in
    (res, record c { f = raise (ltb 0xff r) fc f' })

-- `r` is `a - b - borrow`, which is negative when `a` is below `b + borrow`.
unfoldable pub sub8 : Cpu → ℕ → ℕ → ℕ → Bool → ℕ × Cpu
sub8 c a b borrow keep =
    let res = u8 (a + 512 - b - borrow) in
    let f = raise (res == 0) fz fn in
    let f' = raise (ltb (bit_and a 0xf) (bit_and b 0xf + borrow)) fh f in
    let c' : Cpu = record c { f = raise (ltb a (b + borrow)) fc f' } in
    (res, if keep then record c' { a = res } else c')

unfoldable pub and8 : Cpu → ℕ → ℕ → ℕ × Cpu
and8 c a b = let r = u8 (bit_and a b) in (r, record c { f = u8 (bit_or fh (flag_if (r == 0) fz)) })

unfoldable pub or8 : Cpu → ℕ → ℕ → ℕ × Cpu
or8 c a b = let r = u8 (bit_or a b) in (r, record c { f = u8 (flag_if (r == 0) fz) })

unfoldable pub xor8 : Cpu → ℕ → ℕ → ℕ × Cpu
xor8 c a b = let r = u8 (bit_xor a b) in (r, record c { f = u8 (flag_if (r == 0) fz) })

unfoldable pub inc8 : Cpu → ℕ → ℕ × Cpu
inc8 c v =
    let r = u8 (v + 1) in
    let half = flag_if (ltb 0xf (bit_and v 0xf + 1)) fh in
    (r, record c { f = u8 (bit_or (bit_or (bit_and c.f fc) (flag_if (r == 0) fz)) half) })

-- `(v & 0xF) - 1` is negative when the lower half is 0.
unfoldable pub dec8 : Cpu → ℕ → ℕ × Cpu
dec8 c v =
    let r = u8 (v + 255) in
    let half = flag_if (bit_and v 0xf == 0) fh in
    (
      r,
      record c { f = u8 (bit_or (bit_or (bit_or (bit_and c.f fc) fn) (flag_if (r == 0) fz)) half) },
    )

unfoldable pub add_hl : Cpu → ℕ → Cpu
add_hl c v =
    let hlv = hl c in
    let r = u32 (hlv + v) in
    let half = flag_if (ltb 0xfff (bit_and hlv 0xfff + bit_and v 0xfff)) fh in
    set_hl (record c { f = u8 (bit_or (bit_or (bit_and c.f fz) half) (flag_if (ltb 0xffff r) fc)) })
      (u16 r)

unfoldable pub add_sp_e8 : Cpu → ℕ → Bool → ℕ × Cpu
add_sp_e8 c e write_hl =
    let sp = c.sp in
    let result = u16 (u32 (sp + e + 2 ^ 32 - (if nonzero (bit_and e 0x80) then 0x100 else 0))) in
    let half = flag_if (ltb 0xf (bit_and sp 0xf + bit_and e 0xf)) fh in
    let c' : Cpu = record c {
      f = u8 (bit_or half (flag_if (ltb 0xff (bit_and sp 0xff + e)) fc));
    } in
    (result, if write_hl then set_hl c' result else record c' { sp = result })

-- The part of DAA that depends on N: the new A and F.
abbrev daa_add : Cpu → ℕ × ℕ
daa_add c =
    let low = if nonzero (bit_and c.f fh) || ltb 9 (bit_and c.a 0x0f) then bit_or 0 0x06 else 0 in
    if nonzero (bit_and c.f fc) || ltb 0x99 c.a
    then (u8 (c.a + bit_or low 0x60), bit_or c.f fc)
    else (u8 (c.a + low), c.f)

abbrev daa_sub : Cpu → ℕ × ℕ
daa_sub c =
    let low = if nonzero (bit_and c.f fh) then bit_or 0 0x06 else 0 in
    if nonzero (bit_and c.f fc)
    then (u8 (c.a + 256 - bit_or low 0x60), bit_or c.f fc)
    else (u8 (c.a + 256 - low), c.f)

unfoldable pub daa : Cpu → Cpu
daa c =
    let (a, f) = if not (nonzero (bit_and c.f fn)) then daa_add c else daa_sub c in
    let f' = bit_and f (not8 fh) in
    record c { f = if a == 0 then bit_or f' fz else bit_and f' (not8 fz); a = a }

-- The new byte and the bit that is shifted out.
abbrev shifted : Cpu → ℕ → ℕ → ℕ × ℕ
shifted c op v =
    let top = u8 (v >>> 7) in
    let bottom = bit_and v 1 in
    let carry = nonzero (bit_and c.f fc) in
    if op == 0
    then (u8 (bit_or (v <<< 1) top), top)
    else if op == 1
    then (u8 (bit_or (v >>> 1) (bottom <<< 7)), bottom)
    else if op == 2
    then (u8 (bit_or (v <<< 1) (if carry then 1 else 0)), top)
    else if op == 3
    then (u8 (bit_or (v >>> 1) (if carry then 0x80 else 0)), bottom)
    else if op == 4
    then (u8 (v <<< 1), top)
    else if op == 5
    then (u8 (bit_or (v >>> 1) (bit_and v 0x80)), bottom)
    else (u8 (v >>> 1), bottom)

unfoldable pub cb_shift : Cpu → ℕ → ℕ → ℕ × Cpu
cb_shift c op v =
    let (r, out) = shifted c op v in
    (r, record c { f = u8 (bit_or (flag_if (r == 0) fz) (flag_if (nonzero out) fc)) })
