-- ===== src/Ori/MemMapper/Block.antt =====
-- `mem_mapper::block`: the ranks get contiguous segments of nearly equal numbers of blocks.
use native.Mathlib.Nat.{
  mul-le-mul_right, mul-le-mul_left, mul-lt-mul_of_pos_right, mul_comm, add-mul, le_refl,
}
use itoyori.Prelude.{ℕ, ◌+◌, ◌-◌, ◌*◌, ◌/◌, ◌≤◌, ◌<◌, ◌^◌, ◌≡◌, ◌↔◌, ap, arith, max, sub64, mul64}
use itoyori.Ori.MemMapper.{Segment, ceil_div}
use itoyori.Ori.MemMapper.Walk.{Mapper}
use itoyori.Ori.MemMapper.Dealing.{offset_range, offset_owner}
use itoyori.Ori.MemMapper.Division.{
  mul64-eq, le-div, ceil_div_le_iff, local_bytes, ceil_div_bounds, mul-le_of_pos,
}

pub record BlockMapper : Type 0 where
  pub block_size : ℕ
  pub n_ranks : ℕ
  pub n_blk : ℕ

-- The constructor; `size_` is not read again.
unfoldable pub block : ℕ → ℕ → ℕ → BlockMapper
unfolding ceil_div
block block_size size n_ranks = record {
  block_size = block_size;
  n_ranks = n_ranks;
  n_blk = ceil_div size block_size;
}

unfoldable pub effective_size : BlockMapper → ℕ
effective_size m = mul64 m.n_blk m.block_size

-- `get_seg_range`, one end at a time: the segment `s` ends where `s + 1` begins.
unfoldable pub seg_begin : BlockMapper → ℕ → ℕ
unfolding ceil_div
seg_begin m seg_id = ceil_div (mul64 seg_id m.n_blk) m.n_ranks

unfoldable pub local_size : BlockMapper → ℕ → ℕ
unfolding seg_begin
local_size m rank = mul64 (max 1 (sub64 (seg_begin m (rank + 1)) (seg_begin m rank))) m.block_size

-- The segment of a block, of `get_segment`.
unfoldable pub seg_of_block : BlockMapper → ℕ → ℕ
seg_of_block m blk_id = mul64 blk_id m.n_ranks / m.n_blk

-- The segment `seg_id` as `get_segment` returns it.
unfoldable pub segment_of : BlockMapper → ℕ → Segment
unfolding seg_begin
segment_of m seg_id = record {
  owner = seg_id;
  offset_b = mul64 (seg_begin m seg_id) m.block_size;
  offset_e = mul64 (seg_begin m (seg_id + 1)) m.block_size;
  pm_offset = 0;
}

unfoldable pub get_segment : BlockMapper → ℕ → Segment
unfolding segment_of seg_of_block
get_segment m offset = segment_of m (seg_of_block m (offset / m.block_size))

-- A nonempty allocation on some ranks, small enough for the products of `get_segment`.
pub record IsValid (m : BlockMapper) : Type 0 where
  pub sized : 0 < m.block_size
  pub ranks : 0 < m.n_ranks
  pub blocks : 0 < m.n_blk
  pub room : m.n_ranks * m.n_blk + m.n_ranks < 2 ^ 64
  pub bytes : m.n_blk * m.block_size < 2 ^ 64

module _ {m : BlockMapper} (v : IsValid m) where
  open m use {block_size, n_ranks, n_blk}

  seg_le : (s : ℕ) → s ≤ n_ranks → s * n_blk ≤ n_ranks * n_blk
  seg_le s h = mul-le-mul_right n_blk h

  seg_begin_le_iff : (s b : ℕ) → s ≤ n_ranks → (seg_begin m s ≤ b) ↔ (s * n_blk ≤ b * n_ranks)
  unfolding seg_begin
  seg_begin_le_iff s b h =
      rw (mul64-eq s n_blk (omega (arith, seg_le s h, v.room)))
        (ceil_div_le_iff (s * n_blk) n_ranks b v.ranks (omega (arith, seg_le s h, v.room)))

  le_seg_of_block_iff : (s b : ℕ) → b < n_blk → (s ≤ seg_of_block m b) ↔ (s * n_blk ≤ b * n_ranks)
  unfolding seg_of_block
  le_seg_of_block_iff s b h =
      rw (mul64-eq b n_ranks (grind (arith, v.room))) (le-div (b * n_ranks) n_blk s v.blocks)

  seg_of_block_lt : (b : ℕ) → b < n_blk → seg_of_block m b < n_ranks
  seg_of_block_lt b h = ground (
    arith,
    (le_seg_of_block_iff n_ranks b h).0,
    mul-lt-mul_of_pos_right {m = b} {n = n_blk} {k = n_ranks} h v.ranks,
    mul_comm n_ranks n_blk,
  )

  seg_begin_le : (s : ℕ) → s ≤ n_ranks → seg_begin m s ≤ n_blk
  seg_begin_le s h =
      (seg_begin_le_iff s n_blk h).1 (omega (arith, seg_le s h, mul_comm n_ranks n_blk))

  seg_begin-seg_of_block_iff :
      (s b : ℕ) → s ≤ n_ranks → b < n_blk → (seg_begin m s ≤ b) ↔ (s ≤ seg_of_block m b)
  seg_begin-seg_of_block_iff s b h k = (
    (λ l. (le_seg_of_block_iff s b k).1 ((seg_begin_le_iff s b h).0 l)),
    (λ l. (seg_begin_le_iff s b h).1 ((le_seg_of_block_iff s b k).0 l)),
  )

  bytes-eq : (s : ℕ) → s ≤ n_ranks → mul64 (seg_begin m s) block_size ≡ seg_begin m s * block_size
  bytes-eq s h =
      mul64-eq _ _ (omega (arith, mul-le-mul_right block_size (seg_begin_le s h), v.bytes))

  seg_begin_mono : (s : ℕ) → s < n_ranks → seg_begin m s ≤ seg_begin m (s + 1)
  seg_begin_mono s h = (seg_begin_le_iff s _ (omega arith)).1 (
      omega (
        arith,
        (seg_begin_le_iff (s + 1) _ (omega arith)).0 (le_refl (seg_begin m (s + 1))),
        add-mul s 1 n_blk,
      ))

  local_size-ge :
      (s : ℕ)
      → s < n_ranks
      → seg_begin m (s + 1) * block_size - seg_begin m s * block_size ≤ local_size m s
  unfolding local_size
  local_size-ge s h =
      local_bytes (seg_begin m s) (seg_begin m (s + 1)) n_blk block_size (seg_begin_mono s h)
        (seg_begin_le (s + 1) h') v.blocks v.sized v.bytes
    where
      h' : s + 1 ≤ n_ranks
      h' = omega arith

  -- For a valid block mapper, an offset within the effective size lies in the segment that
  -- get_segment returns; the owner is a rank, the segment ends within the allocation, and it fits
  -- the local size of its owner.
  pub get_segment_holds :
      (o : ℕ)
      → o < effective_size m
      → let s = get_segment m o in
        (s.owner < n_ranks)
        × (s.offset_b ≤ o)
        × (o < s.offset_e)
        × (s.offset_e ≤ effective_size m)
        × (s.pm_offset + (s.offset_e - s.offset_b) ≤ local_size m s.owner)
  unfolding get_segment effective_size
  get_segment_holds o h =
      let r =
        offset_range block_size n_ranks n_blk v.sized (seg_begin m) (seg_of_block m) seg_begin_le
          seg_of_block_lt seg_begin-seg_of_block_iff o
          (omega (arith, v.bytes, mul64-eq n_blk block_size v.bytes)) in
      let e = bytes-eq (seg_of_block m (o / block_size)) (omega (arith, r.0)) in
      let e' = bytes-eq (seg_of_block m (o / block_size) + 1) (omega (arith, r.0)) in
      (
        r.0,
        omega (arith, e, r.1),
        omega (arith, e', r.2),
        omega (arith, e', r.3, mul64-eq n_blk block_size v.bytes),
        omega (arith, e, e', local_size-ge (seg_of_block m (o / block_size)) r.0),
      )

  -- For a valid block mapper, every offset of a segment that get_segment returns is mapped to
  -- that segment.
  pub get_segment_uniform :
      (o o' : ℕ)
      → o < effective_size m
      → (get_segment m o).offset_b ≤ o'
      → o' < (get_segment m o).offset_e
      → get_segment m o' ≡ get_segment m o
  unfolding get_segment effective_size
  get_segment_uniform o o' h l u =
      let r =
        offset_range block_size n_ranks n_blk v.sized (seg_begin m) (seg_of_block m) seg_begin_le
          seg_of_block_lt seg_begin-seg_of_block_iff o
          (omega (arith, v.bytes, mul64-eq n_blk block_size v.bytes)) in
      let e = bytes-eq (seg_of_block m (o / block_size)) (omega (arith, r.0)) in
      let e' = bytes-eq (seg_of_block m (o / block_size) + 1) (omega (arith, r.0)) in
      ap (segment_of m) (
        offset_owner block_size n_ranks n_blk v.sized (seg_begin m) (seg_of_block m) seg_begin_le
          seg_of_block_lt seg_begin-seg_of_block_iff o' (seg_of_block m (o / block_size)) r.0
          (omega (arith, e)) (omega (arith, e')))

  -- The contract of a mapper, for its clients.
  abbrev pub mapper_block : Mapper
  mapper_block = record {
    effective_size = effective_size m;
    get_segment = get_segment m;
    holds = λ o h. let r = get_segment_holds o h in (r.1, r.2, r.3);
    uniform = get_segment_uniform;
  }

-- The constructor of block makes a valid mapper whose blocks cover the allocation, for a positive
-- block size, size and number of ranks whose sums and products are in range.
pub block-IsValid :
    (block_size size n : ℕ)
    → 0 < block_size
    → 0 < size
    → 0 < n
    → size + block_size < 2 ^ 64
    → n * size + n < 2 ^ 64
    → IsValid (block block_size size n) × (size ≤ effective_size (block block_size size n))
unfolding block effective_size
block-IsValid block_size size n p q r w u =
    let b = ceil_div_bounds size block_size p w in
    let few : ceil_div size block_size ≤ size =
      (ceil_div_le_iff size block_size size p w).1 (mul-le_of_pos size block_size p) in
    (
      record {
        sized = p;
        ranks = r;
        blocks = ground (arith, (ceil_div_le_iff size block_size 0 p w).0);
        room = omega (arith, mul-le-mul_left {m = ceil_div size block_size} {n = size} n few);
        bytes = omega (arith, b.1);
      },
      rw (mul64-eq (ceil_div size block_size) block_size (omega (arith, b.1))) b.0,
    )
