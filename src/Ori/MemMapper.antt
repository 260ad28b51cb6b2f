-- ===== src/Ori/MemMapper.antt =====
-- include/ityr/ori/mem_mapper.hpp: how the blocks of a collective allocation are spread over the
-- ranks. The arithmetic is that of size_t; a segment number or a rank of type int is never negative
-- and at most n_ranks, so that its conversions keep the value.
pub mod Division
pub mod Dealing
pub mod Block
pub mod BlockAdws
pub mod Cyclic
pub mod Walk
mod Tests
use itoyori.Prelude.{ℕ, ◌/◌, add64, sub64}

-- `segment`
pub record Segment : Type 0 where
  pub owner : ℕ
  pub offset_b : ℕ
  pub offset_e : ℕ
  pub pm_offset : ℕ

-- `(a + b - 1) / b`
unfoldable pub ceil_div : ℕ → ℕ → ℕ
ceil_div a b = sub64 (add64 a b) 1 / b
