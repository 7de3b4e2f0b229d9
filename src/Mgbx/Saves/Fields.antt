-- ===== src/Mgbx/Saves/Fields.antt =====
-- src/mgbx/mgbx.c, `mgbx_serialize` and `mgbx_deserialize`: the fields of the structs other than the
-- sound's, as the calls write them, and as the calls read them over the struct that stands there.
use aarch.Prelude.{List, [], ◌∷◌}
use aarch.Mgbx.State.{Cpu, Mem, Ppu, Timer, Joypad, Cart}
use aarch.Common.Util.RoundTrip.{Field, byte, half, word}
use aarch.Common.Util.Reader.{sr_u8, sr_u16, sr_u32}
use aarch.Common.Util.Reading.{Read, give, ◌>>=◌}

unfoldable pub cpu_fields : Cpu → List Field
cpu_fields c =
    byte c.a
    ∷ byte c.f
    ∷ byte c.b
    ∷ byte c.c
    ∷ byte c.d
    ∷ byte c.e
    ∷ byte c.h
    ∷ byte c.l
    ∷ half c.sp
    ∷ half c.pc
    ∷ byte c.ime
    ∷ byte c.ime_pending
    ∷ byte c.halted
    ∷ byte c.stopped
    ∷ byte c.halt_bug
    ∷ []

unfoldable pub read_cpu : Cpu → Read Cpu
read_cpu old = do
  a ← sr_u8
  f ← sr_u8
  b ← sr_u8
  c ← sr_u8
  d ← sr_u8
  e ← sr_u8
  h ← sr_u8
  l ← sr_u8
  sp ← sr_u16
  pc ← sr_u16
  ime ← sr_u8
  ime_pending ← sr_u8
  halted ← sr_u8
  stopped ← sr_u8
  halt_bug ← sr_u8
  give (record old {
    a = a;
    f = f;
    b = b;
    c = c;
    d = d;
    e = e;
    h = h;
    l = l;
    sp = sp;
    pc = pc;
    ime = ime;
    ime_pending = ime_pending;
    halted = halted;
    stopped = stopped;
    halt_bug = halt_bug;
  })

unfoldable pub mem_fields : Mem → List Field
mem_fields mem =
    byte mem.ie
    ∷ byte mem.if_reg
    ∷ byte mem.sb
    ∷ byte mem.sc
    ∷ byte mem.oam_dma_page
    ∷ byte mem.dma_active
    ∷ byte mem.dma_value
    ∷ byte mem.dma_index
    ∷ []

unfoldable pub read_mem : Mem → Read Mem
read_mem old = do
  ie ← sr_u8
  if_reg ← sr_u8
  sb ← sr_u8
  sc ← sr_u8
  oam_dma_page ← sr_u8
  dma_active ← sr_u8
  dma_value ← sr_u8
  dma_index ← sr_u8
  give (record old {
    ie = ie;
    if_reg = if_reg;
    sb = sb;
    sc = sc;
    oam_dma_page = oam_dma_page;
    dma_active = dma_active;
    dma_value = dma_value;
    dma_index = dma_index;
  })

unfoldable pub ppu_fields : Ppu → List Field
ppu_fields ppu =
    byte ppu.lcdc
    ∷ byte ppu.stat
    ∷ byte ppu.scy
    ∷ byte ppu.scx
    ∷ byte ppu.ly
    ∷ byte ppu.lyc
    ∷ byte ppu.bgp
    ∷ byte ppu.obp0
    ∷ byte ppu.obp1
    ∷ byte ppu.wy
    ∷ byte ppu.wx
    ∷ half ppu.dot
    ∷ byte ppu.win_line
    ∷ []

unfoldable pub read_ppu : Ppu → Read Ppu
read_ppu old = do
  lcdc ← sr_u8
  stat ← sr_u8
  scy ← sr_u8
  scx ← sr_u8
  ly ← sr_u8
  lyc ← sr_u8
  bgp ← sr_u8
  obp0 ← sr_u8
  obp1 ← sr_u8
  wy ← sr_u8
  wx ← sr_u8
  dot ← sr_u16
  win_line ← sr_u8
  give (record old {
    lcdc = lcdc;
    stat = stat;
    scy = scy;
    scx = scx;
    ly = ly;
    lyc = lyc;
    bgp = bgp;
    obp0 = obp0;
    obp1 = obp1;
    wy = wy;
    wx = wx;
    dot = dot;
    win_line = win_line;
  })

unfoldable pub timer_fields : Timer → List Field
timer_fields tm =
    half tm.counter ∷ byte tm.tima ∷ byte tm.tma ∷ byte tm.tac ∷ byte tm.tima_reload ∷ []

unfoldable pub read_timer : Timer → Read Timer
read_timer old = do
  counter ← sr_u16
  tima ← sr_u8
  tma ← sr_u8
  tac ← sr_u8
  tima_reload ← sr_u8
  give (record old {
    counter = counter;
    tima = tima;
    tma = tma;
    tac = tac;
    tima_reload = tima_reload;
  })

unfoldable pub joypad_fields : Joypad → List Field
joypad_fields jp = byte jp.select ∷ word jp.buttons ∷ []

unfoldable pub read_joypad : Joypad → Read Joypad
read_joypad old = do
  select ← sr_u8
  buttons ← sr_u32
  give (record old { select = select; buttons = buttons })

unfoldable pub banking_fields : Cart → List Field
banking_fields cart =
    byte cart.type
    ∷ byte cart.ram_enabled
    ∷ byte cart.bank1
    ∷ byte cart.bank2
    ∷ byte cart.mode
    ∷ half cart.rom_bank
    ∷ byte cart.rtc_halt
    ∷ byte cart.rtc_latch_state
    ∷ byte cart.rtc_latched_valid
    ∷ []

unfoldable pub read_banking : Cart → Read Cart
read_banking old = do
  type ← sr_u8
  ram_enabled ← sr_u8
  bank1 ← sr_u8
  bank2 ← sr_u8
  mode ← sr_u8
  rom_bank ← sr_u16
  rtc_halt ← sr_u8
  rtc_latch_state ← sr_u8
  rtc_latched_valid ← sr_u8
  give (record old {
    type = type;
    ram_enabled = ram_enabled;
    bank1 = bank1;
    bank2 = bank2;
    mode = mode;
    rom_bank = rom_bank;
    rtc_halt = rtc_halt;
    rtc_latch_state = rtc_latch_state;
    rtc_latched_valid = rtc_latched_valid;
  })
