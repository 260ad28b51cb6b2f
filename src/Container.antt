-- ===== src/Container.antt =====
-- include/ityr/container: what programs keep in global memory.
pub mod GlobalVector
