-- ===== src/Common.antt =====
-- Code that every core shares: src/common.
pub mod Result
pub mod Util
pub mod Registry
