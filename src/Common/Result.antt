-- ===== src/Common/Result.antt =====
-- The result codes of include/emu/emu.h.
pub data EmuResult : Type 0 where
  ok einval enorom eunsupported enospace ebadstate ebadrom enotimpl : EmuResult
