-- ===== src/Common/Pow2/Tests.antt =====
-- The runs of the test case of util.hpp on rounding, and the theorems at concrete numbers.
use itoyori.Prelude.{◌≡◌, refl, true, false}
use itoyori.Common.Pow2.{is_pow2, round_down_pow2, round_up_pow2}

rounding_runs :
    (round_down_pow2 1100 128 ≡ 1024)
    × (round_down_pow2 128 128 ≡ 128)
    × (round_down_pow2 73 128 ≡ 0)
    × (round_up_pow2 1100 128 ≡ 1152)
    × (round_up_pow2 128 128 ≡ 128)
    × (round_up_pow2 0 128 ≡ 0)
    × (is_pow2 128 ≡ true)
    × (is_pow2 129 ≡ false)
unfolding round_down_pow2 round_up_pow2 is_pow2
rounding_runs = (refl, refl, refl, refl, refl, refl, refl, refl)
