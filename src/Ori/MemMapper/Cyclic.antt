-- ===== src/Ori/MemMapper/Cyclic.antt =====
-- `mem_mapper::cyclic`: segments of one size are dealt out to the ranks in turn.
use native.Mathlib.Nat.{
  mul-le-mul_right, mul-le-mul_left, mul_right_comm, add-mul, le_refl, mod-lt, div-add-mod,
}
use itoyori.Prelude.{ℕ, ◌+◌, ◌-◌, ◌*◌, ◌/◌, ◌%◌, ◌≤◌, ◌<◌, ◌^◌, ◌≡◌, ap, ◌∙◌, arith, mul64}
use itoyori.Ori.MemMapper.{Segment, ceil_div}
use itoyori.Ori.MemMapper.Walk.{Mapper}
use itoyori.Ori.MemMapper.Division.{mul64-eq, le-div, div-lt, ceil_div_bounds}

pub record CyclicMapper : Type 0 where
  pub size : ℕ
  pub n_ranks : ℕ
  pub seg_size : ℕ

unfoldable pub local_size : CyclicMapper → ℕ
unfolding ceil_div
local_size m = mul64 (ceil_div (ceil_div m.size m.seg_size) m.n_ranks) m.seg_size

unfoldable pub effective_size : CyclicMapper → ℕ
unfolding local_size
effective_size m = mul64 (local_size m) m.n_ranks

-- The segment of number `blk_id_g` as `get_segment` returns it.
unfoldable pub segment_of : CyclicMapper → ℕ → Segment
segment_of m blk_id_g = record {
  owner = blk_id_g % m.n_ranks;
  offset_b = mul64 blk_id_g m.seg_size;
  offset_e = mul64 (blk_id_g + 1) m.seg_size;
  pm_offset = mul64 (blk_id_g / m.n_ranks) m.seg_size;
}

unfoldable pub get_segment : CyclicMapper → ℕ → Segment
unfolding segment_of
get_segment m offset = segment_of m (offset / m.seg_size)

-- An allocation whose rounded size, one round of segments more, is a size_t.
pub record IsValid (m : CyclicMapper) : Type 0 where
  pub sized : 0 < m.seg_size
  pub ranks : 0 < m.n_ranks
  pub bytes : m.size + m.n_ranks * m.seg_size + m.n_ranks + m.seg_size < 2 ^ 64

module _ {m : CyclicMapper} (v : IsValid m) where
  open m use {n_ranks, seg_size}

  -- The number of segments that hold data, and the segments of a rank.
  n_segs : ℕ
  n_segs = ceil_div m.size seg_size

  rounds : ℕ
  rounds = ceil_div n_segs n_ranks

  n_segs_bounds : (m.size ≤ n_segs * seg_size) × (n_segs * seg_size < m.size + seg_size)
  unfolding n_segs
  n_segs_bounds = ceil_div_bounds m.size seg_size v.sized (omega (arith, v.bytes))

  n_segs_small : n_segs + n_ranks < 2 ^ 64
  n_segs_small = grind (arith, n_segs_bounds, v.sized, v.bytes)

  rounds_bounds : (n_segs ≤ rounds * n_ranks) × (rounds * n_ranks < n_segs + n_ranks)
  unfolding rounds
  rounds_bounds = ceil_div_bounds n_segs n_ranks v.ranks n_segs_small

  -- The bytes of all ranks.
  total : ℕ
  total = rounds * n_ranks * seg_size

  total_bounds : (m.size ≤ total) × (total < 2 ^ 64)
  unfolding total
  total_bounds =
      let low = mul-le-mul_right seg_size rounds_bounds.0 in
      let high =
        mul-le-mul_right {m = rounds * n_ranks} {n = n_segs + n_ranks} seg_size
          (omega (arith, rounds_bounds.1)) in
      (
        omega (arith, low, n_segs_bounds.0),
        omega (arith, high, add-mul n_segs n_ranks seg_size, n_segs_bounds.1, v.bytes),
      )

  swapped : rounds * seg_size * n_ranks ≡ total
  unfolding total
  swapped = mul_right_comm rounds seg_size n_ranks

  rank_bytes : rounds * seg_size < 2 ^ 64
  rank_bytes = omega (
    arith,
    mul-le-mul_left {m = 1} {n = n_ranks} (rounds * seg_size) v.ranks,
    swapped,
    total_bounds,
  )

  local_size-eq : local_size m ≡ rounds * seg_size
  unfolding local_size rounds n_segs
  local_size-eq = mul64-eq _ _ rank_bytes

  effective_size-eq : effective_size m ≡ total
  unfolding effective_size
  effective_size-eq =
      rw local_size-eq (mul64-eq _ _ (omega (arith, swapped, total_bounds)) ∙ swapped)

  -- The allocation is rounded up.
  pub size-le-effective_size : m.size ≤ effective_size m
  size-le-effective_size = rw effective_size-eq total_bounds.0

  seg_bounds :
      (o : ℕ)
      → o < effective_size m
      → let g = o / seg_size in
        (g * seg_size ≤ o)
        × (o < (g + 1) * seg_size)
        × ((g + 1) * seg_size ≤ total)
        × (g / n_ranks * seg_size + seg_size ≤ rounds * seg_size)
  unfolding total
  seg_bounds o h =
      let g = o / seg_size in
      let low : g < rounds * n_ranks =
        (div-lt o seg_size _ v.sized).1 (omega (arith, effective_size-eq)) in
      let round : g / n_ranks < rounds = (div-lt g n_ranks rounds v.ranks).1 low in
      (
        (le-div o seg_size g v.sized).0 (le_refl g),
        (div-lt o seg_size (g + 1) v.sized).0 (omega arith),
        mul-le-mul_right seg_size (omega (arith, low)),
        omega (
          arith,
          add-mul (g / n_ranks) 1 seg_size,
          mul-le-mul_right {m = g / n_ranks + 1} {n = rounds} seg_size (omega (arith, round)),
        ),
      )

  segment-eq :
      (o : ℕ)
      → o < effective_size m
      → let g = o / seg_size in
        (mul64 g seg_size ≡ g * seg_size)
        × (mul64 (g + 1) seg_size ≡ (g + 1) * seg_size)
        × (mul64 (g / n_ranks) seg_size ≡ g / n_ranks * seg_size)
  segment-eq o h =
      let b = seg_bounds o h in
      (
        mul64-eq _ _ (omega (arith, b, total_bounds)),
        mul64-eq _ _ (omega (arith, b, total_bounds)),
        mul64-eq _ _ (omega (arith, b, rank_bytes)),
      )

  -- For a valid cyclic mapper, an offset within the effective size lies in the segment that
  -- get_segment returns; the owner is a rank, the segment ends within the allocation, and its
  -- place ends within the local size.
  pub get_segment_cyclic_holds :
      (o : ℕ)
      → o < effective_size m
      → let s = get_segment m o in
        (s.owner < n_ranks)
        × (s.offset_b ≤ o)
        × (o < s.offset_e)
        × (s.offset_e ≤ effective_size m)
        × (s.pm_offset + (s.offset_e - s.offset_b) ≤ local_size m)
  unfolding get_segment
  get_segment_cyclic_holds o h =
      let b = seg_bounds o h in
      let e = segment-eq o h in
      (
        mod-lt _ v.ranks,
        omega (arith, b, e),
        omega (arith, b, e),
        omega (arith, b, e, effective_size-eq),
        omega (arith, b, e, local_size-eq, add-mul (o / seg_size) 1 seg_size),
      )

  -- For a valid cyclic mapper, every offset of a segment that get_segment returns is mapped to
  -- that segment.
  pub get_segment_cyclic_uniform :
      (o o' : ℕ)
      → o < effective_size m
      → (get_segment m o).offset_b ≤ o'
      → o' < (get_segment m o).offset_e
      → get_segment m o' ≡ get_segment m o
  unfolding get_segment
  get_segment_cyclic_uniform o o' h l u =
      let e = segment-eq o h in
      ap (segment_of m) (
        omega (
          arith,
          (le-div o' seg_size (o / seg_size) v.sized).1 (omega (arith, e)),
          (div-lt o' seg_size (o / seg_size + 1) v.sized).1 (omega (arith, e)),
        ))

  -- For a valid cyclic mapper, two offsets whose segments have one owner and one place there have
  -- the same segment.
  pub get_segment_cyclic_apart :
      (o o' : ℕ)
      → o < effective_size m
      → o' < effective_size m
      → (get_segment m o).owner ≡ (get_segment m o').owner
      → (get_segment m o).pm_offset ≡ (get_segment m o').pm_offset
      → get_segment m o ≡ get_segment m o'
  unfolding get_segment
  get_segment_cyclic_apart o o' h h' same_owner same_place =
      let e = segment-eq o h in
      let e' = segment-eq o' h' in
      let q : o / seg_size / n_ranks ≡ o' / seg_size / n_ranks =
        grind (arith, e.2, e'.2, same_place, v.sized) in
      ap (segment_of m) (
        omega (
          arith,
          ap (λ (t : ℕ). n_ranks * t) q,
          div-add-mod (o / seg_size) n_ranks,
          div-add-mod (o' / seg_size) n_ranks,
          same_owner,
        ))

  -- The contract of a mapper, for its clients.
  abbrev pub mapper_cyclic : Mapper
  mapper_cyclic = record {
    effective_size = effective_size m;
    get_segment = get_segment m;
    holds = λ o h. let r = get_segment_cyclic_holds o h in (r.1, r.2, r.3);
    uniform = get_segment_cyclic_uniform;
  }
