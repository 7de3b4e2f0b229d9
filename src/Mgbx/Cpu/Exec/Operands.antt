-- ===== src/Mgbx/Cpu/Exec/Operands.antt =====
-- The operands and the CB page are safe.
use aarch.Prelude.{
  ℕ, ◌+◌, ◌-◌, ◌^◌, ◌<◌, ◌≤◌, ◌≡◌, ◌%◌, refl, arith, u8, u16, bit_and, bit_or-lt_pow, bit_or, ◌<<<◌,
  ◌>>>◌,
}
use aarch.Mgbx.State.{Mgbx, Cpu}
use aarch.Mgbx.Bus.{bus_read}
use aarch.Mgbx.Cart.Bounds.{byte_of}
use aarch.Mgbx.Bus.Bounds.{bus_read-InByte}
use aarch.Mgbx.Machine.{Machine, pure, ◌>>◌, modify_cpu}
use aarch.Mgbx.Machine.Valid.{IsValid, IsValid→BusIsValid, CpuInRange, Kept, with_cpu}
use aarch.Mgbx.Machine.Writes.{bus_write-Kept}
use aarch.Mgbx.Machine.Rules.{
  Safe, IsByte, IsWord, AnyValue, pure-Safe, bind-Safe, then-Safe, when-Safe, rd-Safe, wr-Safe,
  get_cpu-Safe, modify_cpu-Safe, call_cpu-Safe,
}
use aarch.Mgbx.Cpu.Alu.{cb_shift}
use aarch.Mgbx.Cpu.Interrupts.{push16, pop16}
use aarch.Mgbx.Cpu.Exec.Operand.{
  fetch, fetch16, push, read_hl, write_hl, reg_get, reg_set, regval, setreg, swap, test_bit,
  shift_or_swap, cb_memory, put_reg, cb_register, cb_run,
}

pub fetch-Safe : Safe fetch IsByte
unfolding fetch
fetch-Safe =
    bind-Safe get_cpu-Safe (λ c h. then-Safe (modify_cpu-Safe _ (λ c' k. omega arith)) (rd-Safe _))

pub fetch16-Safe : Safe fetch16 IsWord
unfolding fetch16
fetch16-Safe = bind-Safe fetch-Safe (λ lo h.
    bind-Safe fetch-Safe
      (λ hi k. pure-Safe _ (omega (arith, bit_or-lt_pow 16 lo (u16 (hi <<< 8))))))

pub push16-Kept : {gb : Mgbx} (x : ℕ) → IsValid gb → Kept (push16 gb x)
unfolding push16
push16-Kept {gb} x v =
    let sp = u16 (gb.cpu.sp + 2 ^ 16 - 1) in
    let (gb1, e, v1) =
      bus_write-Kept sp (u8 (x >>> 8))
        (with_cpu {c = record (gb.cpu) { sp = sp }} v (omega (arith, v.cpu))) (omega arith) in
    let sp' = u16 (sp + 2 ^ 16 - 1) in
    let (gb2, e', v2) =
      bus_write-Kept sp' (u8 x)
        (with_cpu {c = record (gb1.cpu) { sp = sp' }} v1 (omega (arith, v1.cpu))) (omega arith) in
    (gb2, rw (e, e') refl, v2)

pub push-Safe : (x : ℕ) → Safe (push x) AnyValue
unfolding push
push-Safe x = record {
  run = λ gb v. let (gb', e, v') = push16-Kept x v in ((tt, gb'), rw e refl, tt, v');
}

pub pop16-Safe : Safe pop16 IsWord
unfolding pop16
pop16-Safe = record {
  run = λ gb v.
      let lo = bus_read-InByte gb gb.cpu.sp (IsValid→BusIsValid v) in
      let hi = bus_read-InByte gb (u16 (gb.cpu.sp + 1)) (IsValid→BusIsValid v) in
      let c : Cpu = record (gb.cpu) { sp = u16 (u16 (gb.cpu.sp + 1) + 1) } in
      let low = byte_of (bus_read gb gb.cpu.sp) in
      let high = byte_of (bus_read gb (u16 (gb.cpu.sp + 1))) in
      (
        (u16 (bit_or (high <<< 8) low), record gb { cpu = c }),
        rw (lo.0, hi.0) refl,
        omega arith,
        with_cpu {c = c} v (omega (arith, v.cpu)),
      );
}

pub read_hl-Safe : Safe read_hl IsByte
unfolding read_hl
read_hl-Safe = bind-Safe get_cpu-Safe (λ c h. rd-Safe _)

pub write_hl-Safe : {x : ℕ} → x < 256 → Safe (write_hl x) AnyValue
unfolding write_hl
write_hl-Safe small = bind-Safe get_cpu-Safe (λ c h. wr-Safe _ small)

pub reg_get-lt : (c : Cpu) (idx : ℕ) → CpuInRange c → reg_get c idx < 256
unfolding reg_get
reg_get-lt c idx h = ground arith

pub reg_set-InRange :
    {x : ℕ} (idx : ℕ) (c : Cpu) → x < 256 → CpuInRange c → CpuInRange (reg_set c idx x)
unfolding reg_set
reg_set-InRange idx c small h = ground arith

pub regval-Safe : (idx : ℕ) → Safe (regval idx) IsByte
unfolding regval
regval-Safe idx =
    bind-Safe get_cpu-Safe (λ c h. when-Safe _ read_hl-Safe (pure-Safe _ (reg_get-lt c idx h)))

pub setreg-Safe : (idx : ℕ) {x : ℕ} → x < 256 → Safe (setreg idx x) AnyValue
unfolding setreg
setreg-Safe idx small =
    when-Safe _ (write_hl-Safe small) (modify_cpu-Safe _ (λ c h. reg_set-InRange idx c small h))

swap-InRange : (v : ℕ) (c : Cpu) → CpuInRange c → IsByte (swap c v).0 × CpuInRange (swap c v).1
unfolding swap
swap-InRange v c h = ground arith

cb_shift-InRange :
    (y v : ℕ) (c : Cpu) → CpuInRange c → IsByte (cb_shift c y v).0 × CpuInRange (cb_shift c y v).1
unfolding cb_shift
cb_shift-InRange y v c h = ground arith

test_bit-Safe : (y v : ℕ) → Safe (modify_cpu (test_bit y v)) AnyValue
unfolding test_bit
test_bit-Safe y v = modify_cpu-Safe _ (λ c h. ground arith)

shift_or_swap-Safe : (y v : ℕ) → Safe (shift_or_swap y v) IsByte
unfolding shift_or_swap
shift_or_swap-Safe y v =
    when-Safe _ (call_cpu-Safe _ (swap-InRange v)) (call_cpu-Safe _ (cb_shift-InRange y v))

-- The cycles that an operand adds.
abbrev pub IsPenalty : ℕ → Type 0
IsPenalty t = (t ≤ 8) × (t % 4 ≡ 0)

put_reg-Safe : (z : ℕ) {x : ℕ} → x < 256 → Safe (put_reg z x) IsPenalty
unfolding put_reg
put_reg-Safe z small =
    then-Safe (modify_cpu-Safe _ (λ c h. reg_set-InRange z c small h)) (pure-Safe _ (omega arith))

cb_memory-Safe : (x y : ℕ) → Safe (cb_memory x y) IsPenalty
unfolding cb_memory
cb_memory-Safe x y = bind-Safe get_cpu-Safe (λ c h. bind-Safe (rd-Safe _) (λ v small.
    when-Safe _
      (bind-Safe (shift_or_swap-Safe y v)
        (λ r k. then-Safe (wr-Safe _ k) (pure-Safe _ (omega arith))))
      (when-Safe _ (then-Safe (test_bit-Safe y v) (pure-Safe _ (omega arith))) (
        when-Safe _ (then-Safe (wr-Safe _ (omega arith)) (pure-Safe _ (omega arith)))
          (then-Safe (wr-Safe _ (omega arith)) (pure-Safe _ (omega arith)))))))

cb_register-Safe : (x y z : ℕ) → Safe (cb_register x y z) IsPenalty
unfolding cb_register
cb_register-Safe x y z = bind-Safe get_cpu-Safe (λ c h.
    when-Safe _ (bind-Safe (shift_or_swap-Safe y _) (λ r k. put_reg-Safe z k)) (
      when-Safe _ (then-Safe (test_bit-Safe y _) (pure-Safe _ (omega arith)))
        (when-Safe _ (put_reg-Safe z (omega arith)) (put_reg-Safe z (omega arith)))))

pub cb_run-Safe : (op : ℕ) → Safe (cb_run op) IsPenalty
unfolding cb_run
cb_run-Safe op =
    when-Safe _ (cb_memory-Safe (u8 (op >>> 6)) (bit_and (op >>> 3) 7))
      (cb_register-Safe (u8 (op >>> 6)) (bit_and (op >>> 3) 7) (bit_and op 7))

-- The cycles of an instruction.
abbrev pub IsCycles : ℕ → Type 0
IsCycles t = (4 ≤ t) × (t ≤ 24) × (t % 4 ≡ 0)

-- The last step of an instruction, and its cycles.
pub ends :
    {A : Type 0} {m : Machine A} {P : A → Type 0} {t : ℕ}
    → Safe m P
    → IsCycles t
    → Safe (m >> pure t) IsCycles
ends s h = then-Safe s (pure-Safe _ h)
