-- ===== src/Common/Pow2.antt =====
-- include/ityr/common/util.hpp: rounding to powers of two by bit masks, on 64-bit words.
pub mod Masks
mod Tests
use Prim.Native.Nat.{bit_and}
use itoyori.Prelude.{ℕ, ◌+◌, ◌-◌, ◌%◌, ◌^◌, Bool, ◌==◌, add64, sub64}

-- `~x`
abbrev pub complement64 : ℕ → ℕ
complement64 x = 2 ^ 64 - 1 - x

unfoldable pub is_pow2 : ℕ → Bool
is_pow2 x = bit_and x (sub64 x 1) == 0

unfoldable pub round_down_pow2 : ℕ → ℕ → ℕ
round_down_pow2 x alignment = bit_and x (complement64 (sub64 alignment 1))

unfoldable pub round_up_pow2 : ℕ → ℕ → ℕ
round_up_pow2 x alignment = bit_and (sub64 (add64 x alignment) 1) (complement64 (sub64 alignment 1))

-- The same at type uint32_t, which is that of the offsets in a cache block.
abbrev pub sub32 : ℕ → ℕ → ℕ
sub32 a b = (a + 2 ^ 32 - b) % 2 ^ 32

abbrev pub add32 : ℕ → ℕ → ℕ
add32 a b = (a + b) % 2 ^ 32

abbrev pub complement32 : ℕ → ℕ
complement32 x = 2 ^ 32 - 1 - x

unfoldable pub round_down32 : ℕ → ℕ → ℕ
round_down32 x alignment = bit_and x (complement32 (sub32 alignment 1))

unfoldable pub round_up32 : ℕ → ℕ → ℕ
round_up32 x alignment = bit_and (sub32 (add32 x alignment) 1) (complement32 (sub32 alignment 1))
