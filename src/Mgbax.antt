-- ===== src/Mgbax.antt =====
-- The Game Boy Advance core, src/mgbax.
pub mod Timers
