-- ===== src/Lib.antt =====
-- AArch is a framework of console emulators: a public interface (include/emu/emu.h), helpers that
-- the cores share (src/common) and one core per console. This library models the shared helpers
-- for save states and checksums, the registry of the cores, the Game Boy core, src/mgbx, and the
-- timers of the Game Boy Advance core, src/mgbax.
--
-- The files and the code they model:
--   Common/Result.antt    the results of include/emu/emu.h;
--   Common/Util.antt      src/common/util.c: the endian helpers; Common/Util/Writer.antt and
--     Common/Util/Reader.antt are emu_state_writer with sw_* and emu_state_reader with sr_*. A blob
--     is specified as the list of its bytes (`emit` of Common/Util/Writer/Emit.antt);
--     Common/Util/Parts.antt and Common/Util/Reading.antt are what save states need of both: a list
--     of fields and blocks that is written, and the readers that give it back;
--     Common/Util/Crc.antt is emu_crc32;
--   Common/Registry.antt  src/common/registry.c: the table of the cores; Common/Registry/Probe.antt
--     is emu_rom_probe, and Common/Registry/Signatures.antt the table that it is compared with;
--   Mgbx/State.antt       the structs of src/mgbx/mgbx.h, `struct mgbx` last;
--   Mgbx/Interrupt.antt   gb_request_interrupt of src/mgbx/mem.c;
--   Mgbx/Timer.antt       src/mgbx/timer.c: gb_timer_step, gb_timer_read, gb_timer_write;
--   Mgbx/Joypad.antt      src/mgbx/joypad.c: P1 and its interrupt;
--   Mgbx/Cart.antt        src/mgbx/cart.c: gb_cart_read and gb_cart_write, with gb_cart_load in
--     Mgbx/Cart/Load.antt and gb_cart_tick_rtc in Mgbx/Cart/Clock.antt;
--   Mgbx/Cpu.antt         src/mgbx/cpu.c: the register pairs; Mgbx/Cpu/Alu.antt is the arithmetic,
--     Mgbx/Cpu/Interrupts.antt the stack and dispatch_interrupt, Mgbx/Cpu/Exec.antt the opcodes
--     (exec and cb_run), Mgbx/Cpu/Exec/Step.antt gb_cpu_step;
--   Mgbx/Apu.antt         src/mgbx/apu.c: the units of the channels; Mgbx/Apu/Registers.antt is
--     gb_apu_read and gb_apu_write, Mgbx/Apu/Step.antt is gb_apu_step;
--   Mgbx/Ppu.antt         src/mgbx/ppu.c: video memory and the registers; Mgbx/Ppu/Line.antt and
--     Mgbx/Ppu/Sprites.antt are the render of a line, Mgbx/Ppu/Step.antt is gb_ppu_step;
--   Mgbx/Bus.antt         src/mgbx/mem.c: gb_bus_read and gb_bus_write, which call the devices above;
--   Mgbx/Machine.antt     a sequence of calls on the machine, as the CPU makes them; the children
--     are what holds between two calls, and that the bus keeps it;
--   Mgbx/Lifecycle.antt   src/mgbx/mgbx.c: creation, the load of a ROM, power-on and mgbx_run_frame;
--   Mgbx/Saves.antt       src/mgbx/mgbx.c: mgbx_serialize and mgbx_deserialize, with the functions
--     of the save states; Mgbx/Saves/Fields.antt and Mgbx/Saves/Sound.antt are the fields.
--   Mgbax/Timers.antt     src/mgbax/timer.c: the timers of the Game Boy Advance.
-- Mgbx/Fixtures.antt holds the machines that the tests run on. Prelude.antt and its children pass
-- on the names, the words and bits, the arrays and the list lemmas that all parts share.
--
-- A struct is a record, and a function that changes it takes and returns the record; one that also
-- requests an interrupt takes and returns the machine. A function gets the part of the machine
-- that its C counterpart touches. Words are natural numbers with each conversion to a width of w
-- bits written as % 2 ^ w (`u8`, `u16`, `u32`, `u64`); an unsigned difference adds 2 ^ 32 first.
-- An array is a function with its size beside it, and `load` and `store` give `none` outside of
-- the size, as does a NULL pointer: a `none` is undefined behaviour of the C code. The wave RAM
-- and the output buffer of the APU are guarded in the line of each access and updated directly.
-- The array of a line's sprite indices is the list of its elements, where a store past the 40 that
-- it has room for is `none`. Whether each malloc of gb_cart_load succeeds is an argument.
--
-- The while loop of gb_cart_tick_rtc runs on fuel, the quotient of the cycles by the cycles of a
-- second: each round takes one second off, so the loop ends by its test. The loops of gb_apu_step
-- run on fuel likewise: a channel's timer itself, since a period is at least 1 where the frequency
-- has 11 bits, and the accumulated cycles over the 128 of an output sample. So does the loop of
-- gba_timers_step, the accumulated cycles over those of a tick. An int16_t sample is stored as its
-- 16 bits.
--
-- The opcodes are a function `Machine`, from the machine to `none` or to its result and the next
-- machine, written with do blocks; `when◌then◌else◌` is its test. A switch of the C code is a
-- chain of tests, an opcode that no case takes is the 4 cycles of `default`. The loop of
-- mgbx_run_frame runs on fuel of 17,556 rounds: a round takes at least 4 of the 70,224 cycles of a
-- frame. `Run` tells an access outside of an array from fuel that has run out. A save state is a
-- list of fields, in the order of mgbx_serialize, and of the blocks of memory between them.
--
-- Not modelled: the signed wrappers and the dispatch by vtable of src/common/util.c, the accessors
-- in the table of src/common/registry.c, which depend on what is built, and mgbx_destroy with the
-- accessors of the vtable in src/mgbx/mgbx.c, which free or hand out pointers only. Outside of the
-- library: the rest of src/mgbax, the other cores and the tool.
pub mod Prelude
pub mod Common
pub mod Mgbax
pub mod Mgbx
