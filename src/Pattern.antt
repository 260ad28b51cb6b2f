-- ===== src/Pattern.antt =====
-- include/ityr/pattern: loops over ranges of iterators.
pub mod SerialLoop
pub mod ParallelLoop
