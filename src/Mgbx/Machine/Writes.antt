-- ===== src/Mgbx/Machine/Writes.antt =====
-- Memory safety of `gb_bus_write`: a byte written at any address leaves a valid machine.
use mathlib.Core.Option
use aarch.Prelude.{
  ℕ, ◌-◌, ◌*◌, ◌≤◌, ◌<◌, ◌≡◌, refl, arith, bit_and, bit_and_mask, bit_and-le_left, bit_or-lt_pow,
  branches, nonzero, if◌then◌else◌, ◌==◌, ltb, leb, ◌&&◌, not, not8, u8, u16, ◌<<<◌, some, update,
  update-IsBytes,
}
use aarch.Mgbx.State.{Mgbx, Mem, Ppu, Apu, Joypad}
use aarch.Mgbx.Interrupt.{request_interrupt}
use aarch.Mgbx.Cart.{cart_write}
use aarch.Mgbx.Cart.Stores.{cart_write-Stored}
use aarch.Mgbx.Ppu.{vram_write, oam_write, ppu_write_reg, check_lyc, write_lcdc}
use aarch.Mgbx.Joypad.{joypad_write, compose_p1}
use aarch.Mgbx.Timer.{timer_write, timer_tick_edge}
use aarch.Mgbx.Apu.Registers.{apu_write, write_register, write_power, in_wave_ram}
use aarch.Mgbx.Bus.{bus_write, write_high, start_dma}
use aarch.Mgbx.Bus.Bounds.{bus_read-InByte, PpuHoldsBytes}
use aarch.Mgbx.Machine.Valid.{
  IsValid, ApuIsValid, MemInRange, IsValid→BusIsValid, with_mem, with_ppu, with_registers, Kept,
}

pub request_interrupt-IsValid :
    {gb : Mgbx} (bit : ℕ) → IsValid gb → IsValid (request_interrupt gb bit)
unfolding request_interrupt
request_interrupt-IsValid {gb} bit v = with_mem v (
    with_registers v.mem refl refl
      (ground (arith, v.mem.registers, bit_or-lt_pow 8 gb.mem.if_reg (u8 (1 <<< bit)))))

joypad_IsValid : {gb : Mgbx} (jp : Joypad) → IsValid gb → IsValid (record gb { joypad = jp })
joypad_IsValid jp v = record {
  cart = v.cart;
  ppu = v.ppu;
  mem = v.mem;
  timer = v.timer;
  apu = v.apu;
  cpu = v.cpu;
}

joypad_write-IsValid : {gb : Mgbx} (x : ℕ) → IsValid gb → IsValid (joypad_write gb x)
unfolding joypad_write
joypad_write-IsValid {gb} x v =
    let jp' : Joypad = record (gb.joypad) { select = bit_and x 0x30 } in
    let kept : IsValid (record gb { joypad = jp' }) = joypad_IsValid jp' v in
    branches IsValid (nonzero (bit_and (compose_p1 gb.joypad) (not8 (compose_p1 jp'))))
      (λ _. request_interrupt-IsValid 4 kept) (λ _. kept)

timer_write-IsValid :
    {gb : Mgbx} (addr x : ℕ)
    → IsValid gb
    → x < 256
    → IsValid (record gb { timer = timer_write gb.timer addr x })
unfolding timer_write timer_tick_edge
timer_write-IsValid {gb} addr x v small = record {
  cart = v.cart;
  ppu = v.ppu;
  mem = v.mem;
  apu = v.apu;
  cpu = v.cpu;
  timer = ground (arith, v.timer, bit_and-le_left x 7);
}

write_register-IsValid :
    {apu : Apu} (addr x : ℕ) → ApuIsValid apu → x < 256 → ApuIsValid (write_register apu addr x)
unfolding write_register write_power
write_register-IsValid {apu} addr x v small = record {
  wave_ram = λ i. ground (arith, v.wave_ram i);
  mixer = ground (arith, v.mixer);
}

apu_write-IsValid :
    {gb : Mgbx} (addr x : ℕ)
    → IsValid gb
    → x < 256
    → IsValid (record gb { apu = apu_write gb.apu addr x })
unfolding apu_write
apu_write-IsValid {gb} addr x v small = record {
  cart = v.cart;
  ppu = v.ppu;
  mem = v.mem;
  timer = v.timer;
  cpu = v.cpu;
  apu =
      branches ApuIsValid (gb.apu.enabled == 0 && (not (addr == 0xff26) && not (in_wave_ram addr)))
        (λ _. v.apu) (λ _. write_register-IsValid addr x v.apu small);
}

pub registers-IsValid :
    {gb : Mgbx} (ppu : Ppu)
    → IsValid gb
    → ppu.vram ≡ gb.ppu.vram
    → ppu.oam ≡ gb.ppu.oam
    → PpuHoldsBytes ppu
    → IsValid (record gb { ppu = ppu })
registers-IsValid ppu v e e' h =
    with_ppu v
      (record { vram = λ i. rw e (v.ppu.vram i); oam = λ i. rw e' (v.ppu.oam i); registers = h })

pub check_lyc-IsValid : {gb : Mgbx} → IsValid gb → IsValid (check_lyc gb)
unfolding check_lyc
check_lyc-IsValid {gb} v =
    let kept = registers-IsValid _ v refl refl (ground (arith, v.ppu.registers)) in
    branches IsValid _ (λ _. request_interrupt-IsValid 1 kept) (λ _. kept)

write_lcdc-IsValid :
    {gb : Mgbx} (x : ℕ) → IsValid gb → x < 256 → IsValid (record gb { ppu = write_lcdc gb.ppu x })
unfolding write_lcdc
write_lcdc-IsValid {gb} x v small =
    registers-IsValid _ v (ground arith) (ground arith) (ground (arith, v.ppu.registers))

ppu_write_reg-IsValid :
    {gb : Mgbx} (addr x : ℕ) → IsValid gb → x < 256 → IsValid (ppu_write_reg gb addr x)
unfolding ppu_write_reg
ppu_write_reg-IsValid {gb} addr x v small =
    let stays : (ppu : Ppu)
        → ppu.vram ≡ gb.ppu.vram
        → ppu.oam ≡ gb.ppu.oam
        → PpuHoldsBytes ppu
        → IsValid (record gb { ppu = ppu }) =
      λ ppu. registers-IsValid ppu v in
    branches IsValid (addr == 0xff40) (λ _. write_lcdc-IsValid x v small)
      (λ _.
        branches IsValid (addr == 0xff41) (λ _. stays _ refl refl (ground (arith, v.ppu.registers)))
          (λ _.
            branches IsValid (addr == 0xff42)
              (λ _. stays _ refl refl (ground (arith, v.ppu.registers)))
              (λ _.
                branches IsValid (addr == 0xff43)
                  (λ _. stays _ refl refl (ground (arith, v.ppu.registers)))
                  (λ _.
                    branches IsValid (addr == 0xff45)
                      (λ _. check_lyc-IsValid (stays _ refl refl (ground (arith, v.ppu.registers))))
                      (λ _.
                        branches IsValid (addr == 0xff47)
                          (λ _. stays _ refl refl (ground (arith, v.ppu.registers)))
                          (λ _.
                            branches IsValid (addr == 0xff48)
                              (λ _. stays _ refl refl (ground (arith, v.ppu.registers)))
                              (λ _.
                                branches IsValid (addr == 0xff49)
                                  (λ _. stays _ refl refl (ground (arith, v.ppu.registers)))
                                  (λ _.
                                    branches IsValid (addr == 0xff4a)
                                      (λ _. stays _ refl refl (ground (arith, v.ppu.registers)))
                                      (λ _.
                                        branches IsValid (addr == 0xff4b)
                                          (λ _. stays _ refl refl (ground (arith, v.ppu.registers)))
                                          (λ _. v))))))))))

start_dma-Kept : {gb : Mgbx} (x : ℕ) → IsValid gb → x < 256 → Kept (start_dma gb x)
unfolding start_dma
start_dma-Kept {gb} x v small =
    let page = if ltb 0xf1 x then 0xf1 else x in
    let started : (b : ℕ)
        → b < 256
        → IsValid (record gb {
          mem = record (gb.mem) {
            oam_dma_page = page;
            dma_active = 1;
            dma_index = 0;
            dma_value = b;
          };
        }) =
      λ b h. with_mem v (with_registers v.mem refl refl (ground (arith, v.mem.registers))) in
    let read =
      bus_read-InByte _ (u16 (page * 0x100))
        (IsValid→BusIsValid (started gb.mem.dma_value (v.mem.registers.1.0))) in
    (_, rw read.0, started _ read.1)

write_high-Kept :
    {gb : Mgbx} (addr x : ℕ) → IsValid gb → 0xff00 ≤ addr → x < 256 → Kept (write_high gb addr x)
unfolding write_high
write_high-Kept {gb} addr x v low small =
    let stays : (mem : Mem)
        → mem.wram ≡ gb.mem.wram
        → mem.hram ≡ gb.mem.hram
        → MemInRange mem
        → Kept (some (record gb { mem = mem })) =
      λ mem e e' h. (_, refl, with_mem v (with_registers v.mem e e' h)) in
    branches Kept (addr == 0xff00) (λ _. (_, refl, joypad_write-IsValid x v))
      (λ _.
        branches Kept (addr == 0xff01) (λ _. stays _ refl refl (ground (arith, v.mem.registers)))
          (λ _.
            branches Kept (addr == 0xff02)
              (λ _. stays _ refl refl (ground (arith, v.mem.registers, bit_and-le_left x 0x81)))
              (λ _.
                branches Kept (leb 0xff04 addr && leb addr 0xff07)
                  (λ _. (_, refl, timer_write-IsValid addr x v small))
                  (λ _.
                    branches Kept (addr == 0xff0f)
                      (λ _.
                        stays _ refl refl (ground (arith, v.mem.registers, bit_and-le_left x 0x1f)))
                      (λ _.
                        branches Kept (addr == 0xff46) (λ _. start_dma-Kept x v small)
                          (λ _.
                            branches Kept (addr == 0xff50) (λ _. (_, refl, v))
                              (λ _.
                                branches Kept (leb 0xff10 addr && leb addr 0xff3f)
                                  (λ _. (_, refl, apu_write-IsValid addr x v small))
                                  (λ _.
                                    branches Kept (leb 0xff40 addr && leb addr 0xff4b)
                                      (λ _. (_, refl, ppu_write_reg-IsValid addr x v small))
                                      (λ _.
                                        branches Kept (leb 0xff80 addr && leb addr 0xfffe)
                                          (λ t. (
                                            record gb {
                                              mem = record (gb.mem) {
                                                hram = update gb.mem.hram (addr - 0xff80) x;
                                              };
                                            },
                                            ground arith,
                                            with_mem v (record {
                                              wram = v.mem.wram;
                                              hram =
                                                  update-IsBytes (addr - 0xff80) v.mem.hram small;
                                              registers = v.mem.registers;
                                            }),
                                          ))
                                          (λ _.
                                            branches Kept (addr == 0xffff)
                                              (λ _.
                                                stays _ refl refl (ground (arith, v.mem.registers)))
                                              (λ _. (_, refl, v))))))))))))

cart_write-Kept :
    {gb : Mgbx} (addr x : ℕ)
    → IsValid gb
    → x < 256
    → Kept (Option.map (λ cart. record gb { cart = cart }) (cart_write gb.cart addr x))
cart_write-Kept {gb} addr x v small =
    let (cart, e, valid) = cart_write-Stored addr x v.cart small in
    (
      record gb { cart = cart },
      rw e,
      record { cart = valid; ppu = v.ppu; mem = v.mem; timer = v.timer; apu = v.apu; cpu = v.cpu },
    )

pub oam_write-Kept :
    {gb : Mgbx} (addr x : ℕ)
    → IsValid gb
    → addr < 0xfea0
    → x < 256
    → Kept (Option.map (λ ppu. record gb { ppu = ppu }) (oam_write gb.ppu addr x))
unfolding oam_write
oam_write-Kept {gb} addr x v high small = (
  record gb { ppu = record (gb.ppu) { oam = update gb.ppu.oam (addr - 0xfe00) x } },
  ground arith,
  with_ppu v (record {
    vram = v.ppu.vram;
    oam = update-IsBytes (addr - 0xfe00) v.ppu.oam small;
    registers = v.ppu.registers;
  }),
)

-- A byte that is written to a valid machine, at any address, stores inside its arrays only, and
-- leaves a valid machine.
pub bus_write-Kept : {gb : Mgbx} (addr x : ℕ) → IsValid gb → x < 256 → Kept (bus_write gb addr x)
unfolding bus_write vram_write
bus_write-Kept {gb} addr x v small =
    branches Kept (ltb addr 0x8000) (λ _. cart_write-Kept addr x v small)
      (λ _.
        branches Kept (ltb addr 0xa000)
          (λ t. (
            record gb { ppu = record (gb.ppu) { vram = update gb.ppu.vram (addr - 0x8000) x } },
            ground arith,
            with_ppu v (record {
              vram = update-IsBytes (addr - 0x8000) v.ppu.vram small;
              oam = v.ppu.oam;
              registers = v.ppu.registers;
            }),
          ))
          (λ _.
            branches Kept (ltb addr 0xc000) (λ _. cart_write-Kept addr x v small)
              (λ _.
                branches Kept (ltb addr 0xfe00)
                  (λ t. (
                    record gb {
                      mem = record (gb.mem) { wram = update gb.mem.wram (bit_and addr 0x1fff) x };
                    },
                    ground (arith, bit_and_mask 13 addr),
                    with_mem v (record {
                      wram = update-IsBytes (bit_and addr 0x1fff) v.mem.wram small;
                      hram = v.mem.hram;
                      registers = v.mem.registers;
                    }),
                  ))
                  (λ _.
                    branches Kept (ltb addr 0xfea0)
                      (λ t. oam_write-Kept addr x v (ground arith) small)
                      (λ _.
                        branches Kept (ltb addr 0xff00) (λ _. (_, refl, v))
                          (λ t. write_high-Kept addr x v (ground arith) small))))))
