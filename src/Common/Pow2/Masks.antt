-- ===== src/Common/Pow2/Masks.antt =====
-- What the masks compute: the multiples of a power of two next to a number.
use Prim.Native.Nat.{bit_and, digits, bit_and-bitwise}
use native.Mathlib.Nat.{pow-suc, one-le-pow, pow-le-pow_right, mul-mod_left}
use itoyori.Prelude.{
  ℕ, zero, suc, ◌+◌, ◌-◌, ◌*◌, ◌/◌, ◌%◌, ◌^◌, ◌≤◌, ◌<◌, ◌≡◌, refl, ap, ◌∙◌, min, arith, add64,
  sub64,
}
use itoyori.Common.Pow2.{
  complement64, round_down_pow2, round_up_pow2, complement32, sub32, add32, round_down32,
  round_up32,
}

-- The ones that a word shares with a mask, from the lowest bit on, in a number of rounds.
abbrev shared_ones : ℕ → ℕ → ℕ → ℕ
shared_ones rounds x mask = digits (λ rest. zero) min rounds x mask

-- As many rounds as the word's value are enough.
shared_ones-enough :
    (spare rounds x mask : ℕ)
    → x ≤ rounds
    → shared_ones (spare + rounds) x mask ≡ shared_ones rounds x mask
shared_ones-enough spare rounds zero mask h = rw (none (spare + rounds), none rounds) refl
  where
    none : (n : ℕ) → shared_ones n 0 mask ≡ 0
    none zero = refl
    none (suc n) = refl
shared_ones-enough spare zero (suc x) mask h = absurd (omega arith)
shared_ones-enough spare (suc rounds) (suc x) mask h =
    let e : spare + suc rounds ≡ suc (spare + rounds) = omega arith in
    let h2 = shared_ones-enough spare rounds (suc x / 2) (mask / 2) (omega arith) in
    rw (ap (λ (n : ℕ). shared_ones n (suc x) mask) e) (omega (arith, h2))

bit_and_step :
    (x mask : ℕ) → bit_and x mask ≡ min (x % 2) (mask % 2) + 2 * bit_and (x / 2) (mask / 2)
bit_and_step zero mask = omega (arith, bit_and-bitwise 0 mask, bit_and-bitwise 0 (mask / 2))
bit_and_step (suc x) mask =
    let half = suc x / 2 in
    let e : x - half + half ≡ x = omega arith in
    let h = shared_ones-enough (x - half) half half (mask / 2) (omega arith) in
    let h2 = ap (λ (n : ℕ). shared_ones n half (mask / 2)) e in
    omega (arith, bit_and-bitwise (suc x) mask, bit_and-bitwise half (mask / 2), h, h2)

-- `w` ones keep a number of `w` bits.
bit_and-ones : (w x : ℕ) → x < 2 ^ w → bit_and x (2 ^ w - 1) ≡ x
bit_and-ones zero zero h = refl
bit_and-ones zero (suc x) h = absurd (omega arith)
bit_and-ones (suc w) x h = omega (
  arith,
  pow-suc 2 w,
  one-le-pow w 2,
  ap (bit_and x) (halve w),
  bit_and_step x (2 ^ suc w - 1),
  ap (bit_and (x / 2)) (halve w),
  bit_and-ones w (x / 2) (omega (arith, pow-suc 2 w)),
)
  where
    halve : (w : ℕ) → (2 ^ suc w - 1) / 2 ≡ 2 ^ w - 1
    halve w = omega (arith, pow-suc 2 w, one-le-pow w 2)

-- Ones from bit `k` to bit `w` clear the `k` low bits.
high_fields :
    (k w q r : ℕ)
    → k ≤ w
    → r < 2 ^ k
    → q * 2 ^ k + r < 2 ^ w
    → bit_and (q * 2 ^ k + r) (2 ^ w - 2 ^ k) ≡ q * 2 ^ k
high_fields zero w q r h f g = ground (arith, bit_and-ones w q)
high_fields (suc k) zero q r h f g = absurd (omega arith)
high_fields (suc k) (suc w) q r h f g = ground (
  arith,
  bit_and_step (q * 2 ^ suc k + r) (2 ^ suc w - 2 ^ suc k),
  two-pow q k,
  pow-suc 2 k,
  pow-suc 2 w,
  high_fields k w q (r / 2),
)
  where
    two-pow : (q k : ℕ) → q * 2 ^ suc k ≡ 2 * (q * 2 ^ k)
    two-pow q k = omega (arith, ap (λ (t : ℕ). q * t) (pow-suc 2 k))

pow-le-pow-63 : (k : ℕ) → k < 64 → 2 ^ k ≤ 2 ^ 63
pow-le-pow-63 k h = pow-le-pow_right {n = 2} (omega arith) {i = k} {j = 63} (omega arith)

mask_lem : (k : ℕ) → k < 64 → complement64 (sub64 (2 ^ k) 1) ≡ 2 ^ 64 - 2 ^ k
mask_lem k h = omega (arith, one-le-pow k 2, pow-le-pow-63 k h)

-- A mask of the bits from `k` on keeps the quotient.
and-mask :
    (w k x mask : ℕ) → mask ≡ 2 ^ w - 2 ^ k → k ≤ w → x < 2 ^ w → bit_and x mask ≡ x / 2 ^ k * 2 ^ k
and-mask w k x mask e h f =
    ap (bit_and x) e ∙ ground (arith, one-le-pow k 2, high_fields k w (x / 2 ^ k) (x % 2 ^ k))

multiple-nearest :
    (k x : ℕ)
    → (x / 2 ^ k * 2 ^ k % 2 ^ k ≡ 0) × (x / 2 ^ k * 2 ^ k ≤ x) × (x < x / 2 ^ k * 2 ^ k + 2 ^ k)
multiple-nearest k x = let p = one-le-pow k 2 in (mul-mod_left _ _, ground arith, ground arith)

-- Rounding down a 64-bit number to a multiple of a power of two gives the multiple at or below it
-- that is less than one alignment away.
pub round_down_pow2_nearest :
    (k x : ℕ)
    → k < 64
    → x < 2 ^ 64
    → (round_down_pow2 x (2 ^ k) % 2 ^ k ≡ 0)
      × (round_down_pow2 x (2 ^ k) ≤ x)
      × (x < round_down_pow2 x (2 ^ k) + 2 ^ k)
unfolding round_down_pow2
round_down_pow2_nearest k x h f =
    rw (and-mask 64 k x _ (mask_lem k h) (omega arith) f) (multiple-nearest k x)

-- For an alignment 2 ^ k with k < 64 and a number whose sum with it does not exceed 2 ^ 64,
-- round_up_pow2 gives the multiple of the alignment at or above the number that is less than one
-- alignment away.
pub round_up_pow2_nearest :
    (k x : ℕ)
    → k < 64
    → x + 2 ^ k ≤ 2 ^ 64
    → (round_up_pow2 x (2 ^ k) % 2 ^ k ≡ 0)
      × (x ≤ round_up_pow2 x (2 ^ k))
      × (round_up_pow2 x (2 ^ k) < x + 2 ^ k)
unfolding round_up_pow2
round_up_pow2_nearest k x h f =
    let p = one-le-pow k 2 in
    let e : sub64 (add64 x (2 ^ k)) 1 ≡ x + 2 ^ k - 1 = omega arith in
    rw (e, and-mask 64 k (x + 2 ^ k - 1) _ (mask_lem k h) (omega arith) (omega arith))
      (let m = multiple-nearest k (x + 2 ^ k - 1) in (m.0, omega arith, omega arith))

mask32_lem : (k : ℕ) → k < 32 → complement32 (sub32 (2 ^ k) 1) ≡ 2 ^ 32 - 2 ^ k
mask32_lem k h =
    omega
      (arith, one-le-pow k 2, pow-le-pow_right {n = 2} (omega arith) {i = k} {j = 31} (omega arith))

-- The same for the offsets of type uint32_t: the region that is rounded outwards contains it.
pub round_down32-le : (k x : ℕ) → k < 32 → x < 2 ^ 32 → round_down32 x (2 ^ k) ≤ x
unfolding round_down32
round_down32-le k x h f =
    rw (and-mask 32 k x _ (mask32_lem k h) (omega arith) f) (multiple-nearest k x).1

pub le-round_up32 : (k x : ℕ) → k < 32 → x + 2 ^ k ≤ 2 ^ 32 → x ≤ round_up32 x (2 ^ k)
unfolding round_up32
le-round_up32 k x h f =
    let p = one-le-pow k 2 in
    let e : sub32 (add32 x (2 ^ k)) 1 ≡ x + 2 ^ k - 1 = omega arith in
    rw (e, and-mask 32 k (x + 2 ^ k - 1) _ (mask32_lem k h) (omega arith) (omega arith))
      (let m = multiple-nearest k (x + 2 ^ k - 1) in omega arith)
