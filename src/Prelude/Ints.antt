-- ===== src/Prelude/Ints.antt =====
-- Values of int, and the counters that are made of them.
use Prim.Native.Nat.{ℕ, zero, suc, ◌+◌, ◌<◌}
use Prim.{Unit, tt}
use mathlib.Core.Path.{◌≡◌, refl, sym, ◌∙◌}
use mathlib.Core.Bool.{Bool, true, false, true≢false}
use native.Mathlib.Omega.{arith}

-- `negsuc n` is -(n + 1).
pub data ℤ : Type 0 where
  pos negsuc : ℕ → ℤ

-- `x++` and `x--`, of a value that is not the last one of the type.
abbrev pub increment : ℤ → ℤ
increment (pos n) = pos (n + 1)
increment (negsuc zero) = pos 0
increment (negsuc (suc n)) = negsuc n

abbrev pub decrement : ℤ → ℤ
decrement (pos zero) = negsuc 0
decrement (pos (suc n)) = pos n
decrement (negsuc n) = negsuc (n + 1)

-- `x == 0`
abbrev pub equals_zero : ℤ → Bool
equals_zero (pos zero) = true
equals_zero (pos (suc n)) = false
equals_zero (negsuc n) = false

abbrev pub IsNatural : ℤ → Type 0
IsNatural (pos n) = Unit {0}
IsNatural (negsuc n) = ⊥

abbrev pub IsPositive : ℤ → Type 0
IsPositive (pos n) = 0 < n
IsPositive (negsuc n) = ⊥

pub increment-IsNatural : (z : ℤ) → IsNatural z → IsNatural (increment z)
increment-IsNatural (pos n) h = tt
increment-IsNatural (negsuc n) h = absurd h

pub increment-IsPositive : (z : ℤ) → IsNatural z → IsPositive (increment z)
increment-IsPositive (pos n) h = omega arith
increment-IsPositive (negsuc n) h = absurd h

pub IsPositive-IsNatural : (z : ℤ) → IsPositive z → IsNatural z
IsPositive-IsNatural (pos n) h = tt
IsPositive-IsNatural (negsuc n) h = absurd h

pub decrement-IsNatural : (z : ℤ) → IsPositive z → IsNatural (decrement z)
decrement-IsNatural (pos zero) h = absurd (omega (arith, h))
decrement-IsNatural (pos (suc n)) h = tt
decrement-IsNatural (negsuc n) h = absurd h

pub equals_zero-IsPositive : (z : ℤ) → IsPositive z → equals_zero z ≡ false
equals_zero-IsPositive (pos zero) h = absurd (omega (arith, h))
equals_zero-IsPositive (pos (suc n)) h = refl
equals_zero-IsPositive (negsuc n) h = absurd h

pub zero-not_positive : (z : ℤ) → IsPositive z → equals_zero z ≡ true → ⊥
zero-not_positive z p e = true≢false (sym e ∙ equals_zero-IsPositive z p)
