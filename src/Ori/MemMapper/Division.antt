-- ===== src/Ori/MemMapper/Division.antt =====
-- Rounded divisions as bounds.
use native.Mathlib.Nat.{
  le-div_iff_mul-le, div-lt_iff_lt-mul, mod-eq_of_lt, mul-le-mul_right, add-mul, le_refl, suc-mul,
}
use itoyori.Prelude.{
  ℕ, zero, suc, ◌+◌, ◌-◌, ◌*◌, ◌/◌, ◌≤◌, ◌<◌, ◌^◌, ◌≡◌, ◌↔◌, refl, ap, max, arith, add64, sub64,
  mul64,
}
use itoyori.Ori.MemMapper.{ceil_div}

pub mul64-eq : (a b : ℕ) → a * b < 2 ^ 64 → mul64 a b ≡ a * b
mul64-eq a b h = mod-eq_of_lt h

pub le-div : (a b c : ℕ) → 0 < b → (c ≤ a / b) ↔ (c * b ≤ a)
le-div a b c k = le-div_iff_mul-le k

pub div-lt : (a b c : ℕ) → 0 < b → (a / b < c) ↔ (a < c * b)
div-lt a b c k = div-lt_iff_lt-mul k

-- Where the sum does not wrap, `ceil_div` is the least number that is large enough.
pub ceil_div_le_iff : (a b c : ℕ) → 0 < b → a + b < 2 ^ 64 → (ceil_div a b ≤ c) ↔ (a ≤ c * b)
unfolding ceil_div
ceil_div_le_iff a b c k h =
    let e : sub64 (add64 a b) 1 ≡ a + b - 1 = omega arith in
    rw e (
      let d = div-lt (a + b - 1) b (c + 1) k in
      ((λ q. omega (arith, d.0 (omega arith))), (λ q. omega (arith, d.1 (omega arith)))))

-- A local size of at least one block, in bytes, has room for a range of blocks.
pub local_bytes :
    (b e n size : ℕ)
    → b ≤ e
    → e ≤ n
    → 0 < n
    → 0 < size
    → n * size < 2 ^ 64
    → e * size - b * size ≤ mul64 (max 1 (sub64 e b)) size
local_bytes b e n size h k p q w =
    let n_lt : n < 2 ^ 64 = grind arith in
    let diff : sub64 e b ≡ e - b = omega arith in
    let most : max 1 (e - b) * size ≤ n * size = mul-le-mul_right size (omega arith) in
    let least : (e - b) * size ≤ max 1 (e - b) * size = mul-le-mul_right size (omega arith) in
    let split : (e - b) * size + b * size ≡ e * size =
      rw (← add-mul (e - b) b size) (ap (λ (t : ℕ). t * size) (omega arith)) in
    rw (diff, mul64-eq (max 1 (e - b)) size (omega arith)) (omega arith)

-- One less than a rounded-up quotient is the greatest number below the quotient.
pub le-pred_ceil_div_iff :
    (x n s : ℕ) → 0 < x → 0 < n → x + n < 2 ^ 64 → (s ≤ sub64 (ceil_div x n) 1) ↔ (s * n < x)
le-pred_ceil_div_iff x n s p q w =
    let positive : 0 < ceil_div x n = ground (arith, (ceil_div_le_iff x n 0 q w).0) in
    let small : ceil_div x n ≤ x = (ceil_div_le_iff x n x q w).1 (grind arith) in
    let pred : sub64 (ceil_div x n) 1 ≡ ceil_div x n - 1 = omega arith in
    rw pred (
      (λ l. ground (arith, (ceil_div_le_iff x n s q w).1)),
      (λ l. ground (arith, (ceil_div_le_iff x n s q w).0)),
    )

-- Rounded up to a multiple, a number grows by less than the divisor.
pub ceil_div_bounds :
    (a b : ℕ) → 0 < b → a + b < 2 ^ 64 → (a ≤ ceil_div a b * b) × (ceil_div a b * b < a + b)
ceil_div_bounds a b p w =
    ((ceil_div_le_iff a b (ceil_div a b) p w).0 (le_refl (ceil_div a b)), upper (ceil_div a b) refl)
  where
    upper : (c : ℕ) → ceil_div a b ≡ c → c * b < a + b
    upper zero e = omega arith
    upper (suc c) e = ground (arith, (ceil_div_le_iff a b c p w).1, suc-mul c b)

pub mul-le_of_pos : (a b : ℕ) → 0 < b → a ≤ a * b
mul-le_of_pos a b p = grind arith
