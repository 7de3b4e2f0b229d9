-- ===== src/Mgbx/Cpu/Exec/Progress.antt =====
-- `gb_cpu_step` is safe, and makes progress.
use aarch.Prelude.{
  branches, switch, ℕ, ◌+◌, ◌*◌, ◌^◌, ◌<◌, ◌≤◌, ◌≡◌, ◌%◌, refl, arith, u8, u16, bit_and,
  bit_and-le_left, nonzero, ◌==◌, not8, some, Bool-cases, inl, inr, leb, true, false, zero, suc,
}
use aarch.Mgbx.State.{Mgbx, Cpu}
use aarch.Mgbx.Machine.Valid.{IsValid, MemIsValid, CpuInRange, with_cpu, with_mem, with_registers}
use aarch.Mgbx.Machine.Writes.{oam_write-Kept}
use aarch.Mgbx.Machine.Rules.{
  Safe, Succeeds, AnyValue, pure-Safe, bind-Safe, then-Safe, when-Safe, rd-Safe, when_true-Safe,
  when_false-Safe, run_when, get_cpu-Safe, modify_mem-Safe, modify_cpu-Safe,
}
use aarch.Mgbx.Cpu.Exec.Operands.{push16-Kept}
use aarch.Mgbx.Cpu.Interrupts.{take_interrupt, dispatch_interrupt}
use aarch.Mgbx.Cpu.Exec.Step.{
  write_oam, dma_next, dma_step, pending, dispatch, sleep, take_ei, advance, count, run_instruction,
  cpu_step,
}
use aarch.Mgbx.Cpu.Exec.Flow.{exec-Safe}

take_interrupt-Succeeds :
    (left bit pending : ℕ) (gb : Mgbx)
    → IsValid gb
    → Succeeds AnyValue (take_interrupt left bit pending gb)
unfolding take_interrupt
take_interrupt-Succeeds zero bit pending gb v = ((false, gb), refl, tt, v)
take_interrupt-Succeeds (suc left) bit pending gb v =
    let low = bit_and gb.mem.if_reg (not8 (2 ^ bit)) in
    let acknowledged : MemIsValid (record (gb.mem) { if_reg = low }) =
      with_registers v.mem refl refl
        (omega (arith, v.mem.registers, bit_and-le_left gb.mem.if_reg (not8 (2 ^ bit)))) in
    let (gb', e, v') = push16-Kept gb.cpu.pc (with_mem v acknowledged) in
    switch (Succeeds AnyValue) (nonzero (bit_and pending (2 ^ bit)))
      (λ _. take_interrupt-Succeeds left (bit + 1) pending gb v)
      (λ _. (
        (
          true,
          record gb' {
            cpu = record (gb'.cpu) {
              pc = u16 (0x0040 + bit * 8);
              ime = 0;
              ime_pending = 0;
              halted = 0;
              stopped = 0;
            };
          },
        ),
        rw e refl,
        tt,
        with_cpu v' (omega (arith, v'.cpu)),
      ))

dispatch_interrupt-Safe : Safe dispatch_interrupt AnyValue
unfolding dispatch_interrupt
dispatch_interrupt-Safe = record {
  run = λ gb v.
      let pending = bit_and (bit_and gb.mem.if_reg gb.mem.ie) 0x1f in
      branches (Succeeds AnyValue) (pending == 0) (λ _. ((false, gb), refl, tt, v))
        (λ _. take_interrupt-Succeeds 5 0 pending gb v);
}

-- The cycles of a step.
abbrev pub IsStep : ℕ → Type 0
IsStep t = (4 ≤ t) × (t ≤ 44) × (t % 4 ≡ 0)

dispatch-Safe :
    {taken otherwise : ℕ} → IsStep taken → IsStep otherwise → Safe (dispatch taken otherwise) IsStep
unfolding dispatch
dispatch-Safe h k =
    bind-Safe {P = AnyValue} dispatch_interrupt-Safe (λ d _. pure-Safe _ (ground arith))

sleep-Safe :
    (wake : Cpu → Cpu) → ((c : Cpu) → CpuInRange c → CpuInRange (wake c)) → Safe (sleep wake) IsStep
unfolding sleep
sleep-Safe wake h = record {
  run = λ gb v.
      (when-Safe (pending gb)
          (then-Safe (modify_cpu-Safe wake h) (
            bind-Safe get_cpu-Safe (λ c _.
              when-Safe _ (dispatch-Safe (omega arith) (omega arith)) (pure-Safe _ (omega arith)))))
          (pure-Safe _ (omega arith))).run
        gb v;
}

count-Safe : (t : ℕ) → Safe (count t) AnyValue
unfolding count
count-Safe t = record {
  run = λ gb v. (
    _,
    refl,
    tt,
    record { cart = v.cart; ppu = v.ppu; mem = v.mem; timer = v.timer; apu = v.apu; cpu = v.cpu },
  );
}

write_oam-Safe : {a x : ℕ} → a < 0xfea0 → x < 256 → Safe (write_oam a x) AnyValue
unfolding write_oam
write_oam-Safe {a} {x} high small = record {
  run =
      λ gb v. let (gb', e, v') = oam_write-Kept a x v high small in ((tt, gb'), rw e refl, tt, v');
}

run_instruction-Safe : Safe run_instruction IsStep
unfolding run_instruction take_ei advance
run_instruction-Safe = then-Safe (modify_cpu-Safe _ (λ c h. ground arith)) (
    bind-Safe get_cpu-Safe (λ c _. bind-Safe (rd-Safe _) (λ op _.
      then-Safe (modify_cpu-Safe _ (λ c' h. ground arith)) (
        bind-Safe (exec-Safe op) (λ t k. then-Safe (count-Safe t) (
          bind-Safe get_cpu-Safe (λ c' _.
            when-Safe _ (dispatch-Safe (omega arith) (omega arith))
              (pure-Safe _ (omega arith)))))))))

dma_next-Safe : (page index : ℕ) → Safe (dma_next page index) IsStep
unfolding dma_next
dma_next-Safe page index = elim (Bool-cases (leb 160 index)) [
  | inl t ↦ when_true-Safe _ t (
      then-Safe
        (modify_mem-Safe _ (λ mem h.
          with_registers {mem' = record mem { dma_index = index; dma_active = 0 }} h refl refl
            (ground (arith, h.registers))))
        (pure-Safe _ (omega arith)))
  | inr t ↦ when_false-Safe _ t (
      then-Safe
        (modify_mem-Safe _ (λ mem h.
          with_registers {mem' = record mem { dma_index = index }} h refl refl
            (ground (arith, h.registers))))
        (bind-Safe (rd-Safe _) (λ x small.
          then-Safe
            (modify_mem-Safe _ (λ mem h.
              with_registers {mem' = record mem { dma_value = x }} h refl refl
                (ground (arith, h.registers))))
            (pure-Safe _ (omega arith)))))
]

dma_step-Succeeds :
    (gb : Mgbx) → IsValid gb → gb.mem.dma_index < 160 → Succeeds IsStep (dma_step gb)
unfolding dma_step
dma_step-Succeeds gb v inside =
    (then-Safe {m = write_oam (u16 (0xfe00 + gb.mem.dma_index)) gb.mem.dma_value}
        (write_oam-Safe (omega arith) (omega (arith, v.mem.registers)))
        (dma_next-Safe gb.mem.oam_dma_page (u8 (gb.mem.dma_index + 1)))).run
      gb v

-- From a valid machine a step of the CPU, in every mode, stays inside every array, leaves a valid
-- machine, and takes 4 to 44 cycles, a multiple of 4.
pub cpu_step-Safe : Safe cpu_step IsStep
unfolding cpu_step
cpu_step-Safe = record {
  run = λ gb v. elim (Bool-cases (nonzero gb.mem.dma_active)) [
    | inl t ↦ run_when IsStep _ _ gb t (dma_step-Succeeds gb v (ground (arith, v.mem.registers)))
    | inr t ↦
        (when_false-Safe _ t (
            when-Safe _ (sleep-Safe _ (λ c h. omega arith))
              (when-Safe _ (sleep-Safe _ (λ c h. omega arith)) run_instruction-Safe))).run
          gb v
  ];
}

-- From a valid machine a step of the CPU, whatever the opcode and in every mode (OAM DMA, STOP,
-- HALT, or an instruction with its interrupt), succeeds: no access leaves its array. It takes 4 to
-- 44 cycles, a multiple of 4, and leaves a valid machine.
pub cpu_step-Succeeds :
    (gb : Mgbx) → IsValid gb → (r : ℕ × Mgbx) × (cpu_step gb ≡ some r) × IsStep r.0 × IsValid r.1
cpu_step-Succeeds gb v = cpu_step-Safe.run gb v
