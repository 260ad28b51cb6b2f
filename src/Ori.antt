-- ===== src/Ori.antt =====
-- The PGAS layer, include/ityr/ori.
pub mod ReleaseManager
pub mod BlockRegions
pub mod MemMapper
pub mod Tlb
pub mod CacheSystem
pub mod CacheManager
pub mod Core
pub mod HomeManager
