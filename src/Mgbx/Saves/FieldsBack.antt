-- ===== src/Mgbx/Saves/FieldsBack.antt =====
-- The fields are read back at their widths.
use aarch.Prelude.{ℕ, ap, List, [], ◌∷◌, u8, u16, u32}
use aarch.Mgbx.State.{Cpu, Mem, Ppu, Timer, Joypad, Cart}
use aarch.Common.Util.RoundTrip.{all_bytes}
use aarch.Common.Util.Reading.{Gives, fields_held, ◌>>=◌, give}
use aarch.Mgbx.Saves.Fields.{
  cpu_fields, read_cpu, mem_fields, read_mem, ppu_fields, read_ppu, timer_fields, read_timer,
  joypad_fields, read_joypad, banking_fields, read_banking,
}

-- The struct that is read back: the saved fields over the others.
unfoldable pub kept_cpu : Cpu → Cpu → Cpu
kept_cpu c old = record old {
  a = u8 c.a;
  f = u8 c.f;
  b = u8 c.b;
  c = u8 c.c;
  d = u8 c.d;
  e = u8 c.e;
  h = u8 c.h;
  l = u8 c.l;
  sp = u16 c.sp;
  pc = u16 c.pc;
  ime = u8 c.ime;
  ime_pending = u8 c.ime_pending;
  halted = u8 c.halted;
  stopped = u8 c.stopped;
  halt_bug = u8 c.halt_bug;
}

assign_cpu : Cpu → List ℕ → Cpu
assign_cpu old
      (a ∷ f ∷ b ∷ c ∷ d ∷ e ∷ h ∷ l ∷ sp ∷ pc ∷ ime ∷ ime_pending ∷ halted ∷ stopped ∷ halt_bug
        ∷ []) =
    record old {
      a = a;
      f = f;
      b = b;
      c = c;
      d = d;
      e = e;
      h = h;
      l = l;
      sp = sp;
      pc = pc;
      ime = ime;
      ime_pending = ime_pending;
      halted = halted;
      stopped = stopped;
      halt_bug = halt_bug;
    }
assign_cpu old _ = old

pub read_cpu-Gives :
    (c old : Cpu) → Gives (read_cpu old) (all_bytes (cpu_fields c)) (kept_cpu c old)
unfolding cpu_fields read_cpu kept_cpu assign_cpu ◌>>=◌ give
read_cpu-Gives c old = record {
  run = λ r room held. ap (λ p. (assign_cpu old p.0, p.1)) (fields_held (cpu_fields c) r room held);
}

unfoldable pub kept_mem : Mem → Mem → Mem
kept_mem mem old = record old {
  ie = u8 mem.ie;
  if_reg = u8 mem.if_reg;
  sb = u8 mem.sb;
  sc = u8 mem.sc;
  oam_dma_page = u8 mem.oam_dma_page;
  dma_active = u8 mem.dma_active;
  dma_value = u8 mem.dma_value;
  dma_index = u8 mem.dma_index;
}

assign_mem : Mem → List ℕ → Mem
assign_mem old (ie ∷ if_reg ∷ sb ∷ sc ∷ oam_dma_page ∷ dma_active ∷ dma_value ∷ dma_index ∷ []) =
    record old {
      ie = ie;
      if_reg = if_reg;
      sb = sb;
      sc = sc;
      oam_dma_page = oam_dma_page;
      dma_active = dma_active;
      dma_value = dma_value;
      dma_index = dma_index;
    }
assign_mem old _ = old

pub read_mem-Gives :
    (mem old : Mem) → Gives (read_mem old) (all_bytes (mem_fields mem)) (kept_mem mem old)
unfolding mem_fields read_mem kept_mem assign_mem ◌>>=◌ give
read_mem-Gives mem old = record {
  run =
      λ r room held. ap (λ p. (assign_mem old p.0, p.1)) (fields_held (mem_fields mem) r room held);
}

unfoldable pub kept_ppu : Ppu → Ppu → Ppu
kept_ppu ppu old = record old {
  lcdc = u8 ppu.lcdc;
  stat = u8 ppu.stat;
  scy = u8 ppu.scy;
  scx = u8 ppu.scx;
  ly = u8 ppu.ly;
  lyc = u8 ppu.lyc;
  bgp = u8 ppu.bgp;
  obp0 = u8 ppu.obp0;
  obp1 = u8 ppu.obp1;
  wy = u8 ppu.wy;
  wx = u8 ppu.wx;
  dot = u16 ppu.dot;
  win_line = u8 ppu.win_line;
}

assign_ppu : Ppu → List ℕ → Ppu
assign_ppu old
      (lcdc ∷ stat ∷ scy ∷ scx ∷ ly ∷ lyc ∷ bgp ∷ obp0 ∷ obp1 ∷ wy ∷ wx ∷ dot ∷ win_line ∷ []) =
    record old {
      lcdc = lcdc;
      stat = stat;
      scy = scy;
      scx = scx;
      ly = ly;
      lyc = lyc;
      bgp = bgp;
      obp0 = obp0;
      obp1 = obp1;
      wy = wy;
      wx = wx;
      dot = dot;
      win_line = win_line;
    }
assign_ppu old _ = old

pub read_ppu-Gives :
    (ppu old : Ppu) → Gives (read_ppu old) (all_bytes (ppu_fields ppu)) (kept_ppu ppu old)
unfolding ppu_fields read_ppu kept_ppu assign_ppu ◌>>=◌ give
read_ppu-Gives ppu old = record {
  run =
      λ r room held. ap (λ p. (assign_ppu old p.0, p.1)) (fields_held (ppu_fields ppu) r room held);
}

unfoldable pub kept_timer : Timer → Timer → Timer
kept_timer tm old = record old {
  counter = u16 tm.counter;
  tima = u8 tm.tima;
  tma = u8 tm.tma;
  tac = u8 tm.tac;
  tima_reload = u8 tm.tima_reload;
}

assign_timer : Timer → List ℕ → Timer
assign_timer old (counter ∷ tima ∷ tma ∷ tac ∷ tima_reload ∷ []) = record old {
  counter = counter;
  tima = tima;
  tma = tma;
  tac = tac;
  tima_reload = tima_reload;
}
assign_timer old _ = old

pub read_timer-Gives :
    (tm old : Timer) → Gives (read_timer old) (all_bytes (timer_fields tm)) (kept_timer tm old)
unfolding timer_fields read_timer kept_timer assign_timer ◌>>=◌ give
read_timer-Gives tm old = record {
  run = λ r room held.
      ap (λ p. (assign_timer old p.0, p.1)) (fields_held (timer_fields tm) r room held);
}

unfoldable pub kept_joypad : Joypad → Joypad → Joypad
kept_joypad jp old = record old { select = u8 jp.select; buttons = u32 jp.buttons }

assign_joypad : Joypad → List ℕ → Joypad
assign_joypad old (select ∷ buttons ∷ []) = record old { select = select; buttons = buttons }
assign_joypad old _ = old

pub read_joypad-Gives :
    (jp old : Joypad) → Gives (read_joypad old) (all_bytes (joypad_fields jp)) (kept_joypad jp old)
unfolding joypad_fields read_joypad kept_joypad assign_joypad ◌>>=◌ give
read_joypad-Gives jp old = record {
  run = λ r room held.
      ap (λ p. (assign_joypad old p.0, p.1)) (fields_held (joypad_fields jp) r room held);
}

unfoldable pub kept_banking : Cart → Cart → Cart
kept_banking cart old = record old {
  type = u8 cart.type;
  ram_enabled = u8 cart.ram_enabled;
  bank1 = u8 cart.bank1;
  bank2 = u8 cart.bank2;
  mode = u8 cart.mode;
  rom_bank = u16 cart.rom_bank;
  rtc_halt = u8 cart.rtc_halt;
  rtc_latch_state = u8 cart.rtc_latch_state;
  rtc_latched_valid = u8 cart.rtc_latched_valid;
}

assign_banking : Cart → List ℕ → Cart
assign_banking old
      (type ∷ ram_enabled ∷ bank1 ∷ bank2 ∷ mode ∷ rom_bank ∷ rtc_halt ∷ rtc_latch_state
        ∷ rtc_latched_valid ∷ []) =
    record old {
      type = type;
      ram_enabled = ram_enabled;
      bank1 = bank1;
      bank2 = bank2;
      mode = mode;
      rom_bank = rom_bank;
      rtc_halt = rtc_halt;
      rtc_latch_state = rtc_latch_state;
      rtc_latched_valid = rtc_latched_valid;
    }
assign_banking old _ = old

pub read_banking-Gives :
    (cart old : Cart)
    → Gives (read_banking old) (all_bytes (banking_fields cart)) (kept_banking cart old)
unfolding banking_fields read_banking kept_banking assign_banking ◌>>=◌ give
read_banking-Gives cart old = record {
  run = λ r room held.
      ap (λ p. (assign_banking old p.0, p.1)) (fields_held (banking_fields cart) r room held);
}
