-- ===== src/Mgbx/Cpu/Interrupts/Stack.antt =====
-- The stack of the SM83 in memory.
use aarch.Prelude.{
  ℕ, ◌+◌, ◌-◌, ◌^◌, ◌<◌, ◌≡◌, refl, ap, ◌∙◌, arith, bit_or, bit_or_fields, u8, u16, ◌<<<◌, ◌>>>◌,
  true, false, some,
}
use aarch.Mgbx.State.{Mgbx, Cpu}
use aarch.Mgbx.Bus.{bus_read}
use aarch.Mgbx.Bus.Ram.{is_memory, same_cell, peek, poke, bus_read-peek, bus_write-poke, peek-poke}
use aarch.Mgbx.Cpu.Interrupts.{push16, pop16}

abbrev at_sp : Mgbx → ℕ → Mgbx
at_sp gb sp = record gb { cpu = record (gb.cpu) { sp = sp } }

cpu-poke : (gb : Mgbx) (addr v : ℕ) → (poke gb addr v).cpu ≡ gb.cpu
unfolding poke
cpu-poke gb addr v = ground arith

peek-at_sp : (gb : Mgbx) (sp addr : ℕ) → peek (at_sp gb sp) addr ≡ peek gb addr
unfolding peek
peek-at_sp gb sp addr = refl

-- The two addresses below the stack pointer.
abbrev pub high_slot : Mgbx → ℕ
high_slot gb = u16 (gb.cpu.sp + 2 ^ 16 - 1)

abbrev pub low_slot : Mgbx → ℕ
low_slot gb = u16 (u16 (gb.cpu.sp + 2 ^ 16 - 1) + 2 ^ 16 - 1)

abbrev pushed : Mgbx → ℕ → Mgbx
pushed gb v =
    let gb1 = poke (at_sp gb (high_slot gb)) (high_slot gb) (u8 (v >>> 8)) in
    poke (at_sp gb1 (low_slot gb)) (low_slot gb) (u8 v)

push16_lem :
    (gb : Mgbx) (v : ℕ)
    → is_memory (high_slot gb) ≡ true
    → is_memory (low_slot gb) ≡ true
    → push16 gb v ≡ some (pushed gb v)
unfolding push16
push16_lem gb v high low =
    rw (bus_write-poke (at_sp gb (high_slot gb)) (high_slot gb) (u8 (v >>> 8)) high) (
      bus_write-poke
        (at_sp (poke (at_sp gb (high_slot gb)) (high_slot gb) (u8 (v >>> 8))) (low_slot gb))
        (low_slot gb) (u8 v) low)

slots_differ :
    (gb : Mgbx)
    → is_memory (high_slot gb) ≡ true
    → is_memory (low_slot gb) ≡ true
    → same_cell (low_slot gb) (high_slot gb) ≡ false
slots_differ gb high low = ground arith

read_low :
    (gb : Mgbx) (v : ℕ)
    → is_memory (low_slot gb) ≡ true
    → bus_read (pushed gb v) (low_slot gb) ≡ some (u8 v)
read_low gb v low =
    let gb1 = poke (at_sp gb (high_slot gb)) (high_slot gb) (u8 (v >>> 8)) in
    bus_read-peek (pushed gb v) (low_slot gb) low
    ∙ ap some (
        peek-poke (at_sp gb1 (low_slot gb)) (low_slot gb) (low_slot gb) (u8 v) low low
        ∙ ground arith)

read_high :
    (gb : Mgbx) (v : ℕ)
    → is_memory (high_slot gb) ≡ true
    → is_memory (low_slot gb) ≡ true
    → bus_read (pushed gb v) (high_slot gb) ≡ some (u8 (v >>> 8))
read_high gb v high low =
    let start = at_sp gb (high_slot gb) in
    let gb1 = poke start (high_slot gb) (u8 (v >>> 8)) in
    let over = peek-poke (at_sp gb1 (low_slot gb)) (low_slot gb) (high_slot gb) (u8 v) low high in
    let kept = peek-at_sp gb1 (low_slot gb) (high_slot gb) in
    let first = peek-poke start (high_slot gb) (high_slot gb) (u8 (v >>> 8)) high high in
    ground (
      arith,
      bus_read-peek (pushed gb v) (high_slot gb) high,
      over,
      kept,
      first,
      slots_differ gb high low,
    )

pop16_lem :
    (m : Mgbx) (lo hi : ℕ)
    → bus_read m m.cpu.sp ≡ some lo
    → bus_read m (u16 (m.cpu.sp + 1)) ≡ some hi
    → pop16 m
      ≡ some (
        u16 (bit_or (hi <<< 8) lo),
        record m { cpu = record (m.cpu) { sp = u16 (u16 (m.cpu.sp + 1) + 1) } },
      )
unfolding pop16
pop16_lem m lo hi first second = rw first (rw second refl)

sp-pushed : (gb : Mgbx) (v : ℕ) → (pushed gb v).cpu.sp ≡ low_slot gb
sp-pushed gb v =
    let gb1 = poke (at_sp gb (high_slot gb)) (high_slot gb) (u8 (v >>> 8)) in
    ap (λ (c : Cpu). c.sp) (cpu-poke (at_sp gb1 (low_slot gb)) (low_slot gb) (u8 v))

-- With both bytes below the stack pointer in memory, in VRAM, WRAM, its echo, OAM or HRAM, a push
-- of a word is a store inside the arrays, and a pop right after it gives the word and moves the
-- stack pointer back.
pub pop16-push16 :
    (gb : Mgbx) (v : ℕ)
    → v < 2 ^ 16
    → gb.cpu.sp < 2 ^ 16
    → is_memory (high_slot gb) ≡ true
    → is_memory (low_slot gb) ≡ true
    → (gb' : Mgbx) × (push16 gb v ≡ some gb')
      × (pop16 gb' ≡ some (v, record gb' { cpu = record (gb'.cpu) { sp = gb.cpu.sp } }))
pop16-push16 gb v word small high low = (
  pushed gb v,
  push16_lem gb v high low,
  pop16_lem (pushed gb v) (u8 v) (u8 (v >>> 8)) (ap (bus_read (pushed gb v)) sp ∙ read_low gb v low)
        (ap (bus_read (pushed gb v)) next ∙ read_high gb v high low)
      ∙ ground (arith, sp, bit_or_fields 8 (u8 (v >>> 8)) (u8 v)),
)
  where
    sp : (pushed gb v).cpu.sp ≡ low_slot gb
    sp = sp-pushed gb v

    next : u16 ((pushed gb v).cpu.sp + 1) ≡ high_slot gb
    next = omega (arith, sp)
