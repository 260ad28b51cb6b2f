-- ===== src/Common/FreeList/Aligned.antt =====
-- `get(size, alignment)` gives an aligned block, or leaves the list as it was.
use itoyori.Prelude.{
  ℕ, ◌+◌, ◌-◌, ◌%◌, ◌≤◌, ◌<◌, ◌^◌, ◌≡◌, refl, false, ◌&&◌, ◌||◌, Option, none, some, arith, add64,
  sub64, ◌==◌, Bool-cases, Option-cases, inl, inr,
}
use itoyori.Common.Pow2.{round_up_pow2}
use itoyori.Common.Pow2.Masks.{round_up_pow2_nearest}
use itoyori.Common.FreeList.{FreeList, get, add, get_trimmed, get_aligned}
use itoyori.Common.FreeList.Blocks.{within, free, IsCoalesced}
use itoyori.Common.FreeList.Get.{get_carves}
use itoyori.Common.FreeList.Add.{add_frees, add-get}

-- What an aligned request answers with the list that it leaves.
abbrev pub Served : ℕ → ℕ → FreeList → Option ℕ × FreeList → Type 0
Served size alignment fl (none, fl') = fl' ≡ fl
Served size alignment fl (some a, fl') =
    IsCoalesced fl'
    × (a % alignment ≡ 0)
    × ((x : ℕ) → free fl x ≡ (within a size x || free fl' x))
    × ((x : ℕ) → (within a size x && free fl' x) ≡ false)

-- The block from `got` to `got + n` is cut at `ret` and `ret + size`; the two ends are given back.
module _ (size n got ret : ℕ) (fl fl' : FreeList) (bounded : got + n < 2 ^ 64) (lower : got ≤ ret)
    (upper : ret + size ≤ got + n) (coalesced : IsCoalesced fl')
    (had : (x : ℕ) → free fl x ≡ (within got n x || free fl' x))
    (taken : (x : ℕ) → (within got n x && free fl' x) ≡ false) where
  trim_front :
      (x : ℕ)
      → IsCoalesced (add got (ret - got) fl')
        × (free (add got (ret - got) fl') x ≡ (within got (ret - got) x || free fl' x))
  trim_front x =
      add_frees got (ret - got) fl' x (omega arith) (λ y. ground (arith, taken y)) coalesced

  trim_back :
      (x : ℕ)
      → let m = add got (ret - got) fl' in
        let r = add (ret + size) (got + n - (ret + size)) m in
        IsCoalesced r × (free r x ≡ (within (ret + size) (got + n - (ret + size)) x || free m x))
  trim_back x =
      add_frees (ret + size) (got + n - (ret + size)) _ x (omega arith)
        (λ y. ground (arith, taken y, (trim_front y).1)) (trim_front x).0

  trimmed :
      (x : ℕ)
      → let r = add (ret + size) (got + n - (ret + size)) (add got (ret - got) fl') in
        (free fl x ≡ (within ret size x || free r x)) × ((within ret size x && free r x) ≡ false)
  trimmed x = ground (arith, had x, taken x, (trim_front x).1, (trim_back x).1)

module _ (k size : ℕ) (small : k < 64) (positive : 0 < size)
    (in_range : size + 2 ^ k < 2 ^ 64) where
  get_trimmed-Served :
      (fl : FreeList) → IsCoalesced fl → Served size (2 ^ k) fl (get_trimmed size (2 ^ k) fl)
  unfolding get_trimmed
  get_trimmed-Served fl c = elim (Option-cases (get (add64 size (2 ^ k)) fl)) [
    | inl e ↦ rw (e, get_trimmed) refl
    | inr ((got, fl'), e) ↦ rw (e, get_trimmed) (found got fl' (rw no_wrap at e))
  ]
    where
      no_wrap : add64 size (2 ^ k) ≡ size + 2 ^ k
      no_wrap = omega arith

      found :
          (got : ℕ) (fl' : FreeList)
          → get (size + 2 ^ k) fl ≡ some (got, fl')
          → Served size (2 ^ k) fl (
            some (round_up_pow2 got (2 ^ k)),
            add
                (add64 (round_up_pow2 got (2 ^ k)) size)
                (sub64 (add64 got (add64 size (2 ^ k))) (add64 (round_up_pow2 got (2 ^ k)) size))
                (add got (sub64 (round_up_pow2 got (2 ^ k)) got) fl'),
          )
      found got fl' e =
          let ret = round_up_pow2 got (2 ^ k) in
          let carved = λ (x : ℕ). get_carves (size + 2 ^ k) got fl fl' x (omega arith) c e in
          let near = round_up_pow2_nearest k got small (omega (arith, (carved 0).1)) in
          let e1 : add64 ret size ≡ ret + size = omega (arith, near, (carved 0).1) in
          let e2 : sub64 (add64 got (add64 size (2 ^ k))) (ret + size)
              ≡ got + (size + 2 ^ k) - (ret + size) =
            omega (arith, near, (carved 0).1) in
          let e3 : sub64 ret got ≡ ret - got = omega (arith, near, (carved 0).1) in
          rw (e1, e2, e3)
            (let t =
                trimmed size (size + 2 ^ k) got ret fl fl' (carved 0).1 near.1 (omega (arith, near))
                  (carved 0).0 (λ x. (carved x).2) (λ x. (carved x).3) in
              (
                (trim_back size (size + 2 ^ k) got ret fl fl' (carved 0).1 near.1
                    (omega (arith, near)) (carved 0).0 (λ x. (carved x).2) (λ x. (carved x).3) 0).0,
                near.0,
                (λ x. (t x).0),
                (λ x. (t x).1),
              ))

  -- For an alignment 2 ^ k with k < 64 and a positive size whose sum with it does not wrap,
  -- get_aligned on a coalesced list either fails and leaves the list as it was, or gives a
  -- multiple of the alignment at which the block was free, takes exactly its addresses and keeps
  -- the list coalesced.
  pub get_aligned-Served :
      (fl : FreeList) → IsCoalesced fl → Served size (2 ^ k) fl (get_aligned size (2 ^ k) fl)
  unfolding get_aligned
  get_aligned-Served fl c = elim (Option-cases (get size fl)) [
    | inl e ↦ rw (e, get_aligned) refl
    | inr ((a, fl'), e) ↦
        rw (e, get_aligned)
          (elim (Bool-cases (a % 2 ^ k == 0)) [
            | inl t ↦ rw t (
              (get_carves size a fl fl' 0 positive c e).0,
              ground arith,
              (λ x. (get_carves size a fl fl' x positive c e).2),
              (λ x. (get_carves size a fl fl' x positive c e).3),
            )
            | inr t ↦ rw (t, add-get size a fl fl' positive c e) (get_trimmed-Served fl c)
          ])
  ]
