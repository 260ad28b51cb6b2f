-- ===== src/Common.antt =====
-- The utilities shared by the layers, include/ityr/common.
pub mod Pow2
pub mod FreeList
pub mod GlobalLock
