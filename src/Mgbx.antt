-- ===== src/Mgbx.antt =====
-- The Game Boy core: src/mgbx.
pub mod State
pub mod Fixtures
pub mod Interrupt
pub mod Timer
pub mod Joypad
pub mod Apu
pub mod Cart
pub mod Cpu
pub mod Ppu
pub mod Bus
pub mod Machine
pub mod Lifecycle
pub mod Saves
