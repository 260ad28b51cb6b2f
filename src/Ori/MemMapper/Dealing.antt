-- ===== src/Ori/MemMapper/Dealing.antt =====
-- What `block` and `block_adws` share: `n_blk` blocks in `n_ranks` contiguous segments, where
-- `first` gives the first block of a segment and `owner` the segment of a block.
use native.Mathlib.Nat.{mul-le-mul_right}
use itoyori.Prelude.{ℕ, ◌+◌, ◌*◌, ◌/◌, ◌≤◌, ◌<◌, ◌≡◌, ◌↔◌, arith}
use itoyori.Ori.MemMapper.Division.{le-div, div-lt}

module _ (block_size n_ranks n_blk : ℕ) (sized : 0 < block_size) (first owner : ℕ → ℕ)
    (first_le : (s : ℕ) → s ≤ n_ranks → first s ≤ n_blk)
    (owner_lt : (b : ℕ) → b < n_blk → owner b < n_ranks)
    (first_le_iff : (s b : ℕ) → s ≤ n_ranks → b < n_blk → (first s ≤ b) ↔ (s ≤ owner b)) where
  pub owner_eq : (s b : ℕ) → s < n_ranks → b < n_blk → first s ≤ b → b < first (s + 1) → owner b ≡ s
  owner_eq s b h k l u =
      ground
        (arith, (first_le_iff s b (omega arith) k).0 l, (first_le_iff (s + 1) b (omega arith) k).1)

  pub owner_range : (b : ℕ) → b < n_blk → (first (owner b) ≤ b) × (b < first (owner b + 1))
  owner_range b k =
      let o = owner_lt b k in
      (
        (first_le_iff (owner b) b (omega arith) k).1 (omega arith),
        ground (arith, (first_le_iff (owner b + 1) b (omega arith) k).0),
      )

  pub offset_range :
      (o : ℕ)
      → o < n_blk * block_size
      → let s = owner (o / block_size) in
        (s < n_ranks)
        × (first s * block_size ≤ o)
        × (o < first (s + 1) * block_size)
        × (first (s + 1) * block_size ≤ n_blk * block_size)
  offset_range o h =
      let b = (div-lt o block_size n_blk sized).1 h in
      let r = owner_range (o / block_size) b in
      (
        owner_lt _ b,
        (le-div o block_size _ sized).0 r.0,
        (div-lt o block_size _ sized).0 r.1,
        mul-le-mul_right block_size (first_le _ (omega (arith, owner_lt _ b))),
      )

  pub offset_owner :
      (o s : ℕ)
      → s < n_ranks
      → first s * block_size ≤ o
      → o < first (s + 1) * block_size
      → owner (o / block_size) ≡ s
  offset_owner o s h l u =
      owner_eq s (o / block_size) h
        (omega
          (arith, (div-lt o block_size (first (s + 1)) sized).1 u, first_le (s + 1) (omega arith)))
        ((le-div o block_size (first s) sized).1 l)
        ((div-lt o block_size (first (s + 1)) sized).1 u)
