-- ===== src/Ori/Core.antt =====
-- include/ityr/ori/core.hpp: the loops over the segments and the blocks of a range of addresses. A loop
-- gives the calls of its function, in order; `none` means that the fuel ran out.
pub mod Blocks
pub mod Homes
pub mod Ranges
mod Tests
use mathlib.Core.Option
use itoyori.Prelude.{
  ℕ, zero, suc, ◌+◌, ◌-◌, max, min, Bool, true, false, List, [], ◌∷◌, ◌++◌, Option, none, some, ltb,
  map, if◌then◌else◌,
}
use itoyori.Common.Pow2.{round_down_pow2}
use itoyori.Ori.MemMapper.{Segment}
use itoyori.Ori.MemMapper.Walk.{for_each_mem_segment}

-- A call of the function of `for_each_block`.
pub record BlockCall : Type 0 where
  pub blk_addr : ℕ
  pub req_addr_b : ℕ
  pub req_addr_e : ℕ

module _ (block_size : ℕ) where
  pub blocks_from : ℕ → ℕ → ℕ → ℕ → Option (List BlockCall)
  blocks_from zero addr_b addr_e blk_addr = none
  blocks_from (suc fuel) addr_b addr_e blk_addr =
      let rest = blocks_from fuel addr_b addr_e (blk_addr + block_size) in
      let call : BlockCall = record {
        blk_addr = blk_addr;
        req_addr_b = max addr_b blk_addr;
        req_addr_e = min addr_e (blk_addr + block_size);
      } in
      elim (ltb blk_addr addr_e) [ true ↦ Option.map (◌∷◌ call) rest | false ↦ some [] ]

  -- One round for each byte, one for the part of a block in front of it, and one for the last test.
  pub for_each_block : ℕ → ℕ → Option (List BlockCall)
  unfolding blocks_from
  for_each_block addr size =
      blocks_from (suc (suc size)) addr (addr + size) (round_down_pow2 addr block_size)

-- A call of one of the functions of `for_each_seg_blk`.
pub data Call : Type 0 where
  home_seg : (seg_addr seg_size owner pm_offset : ℕ) → Call
  cache_blk : (blk_addr req_addr_b req_addr_e owner pm_offset : ℕ) → Call

-- `vm_addr` is the address of the allocation, and `locally_accessible` is of the topology.
module _ (block_size vm_addr : ℕ) (locally_accessible : ℕ → Bool) where
  pub cache_call : Segment → ℕ → BlockCall → Call
  cache_call seg seg_addr b =
      cache_blk b.blk_addr b.req_addr_b b.req_addr_e seg.owner
        (seg.pm_offset + (b.blk_addr - seg_addr))

  -- The function that is called on each segment.
  pub segment_calls : ℕ → ℕ → Segment → Option (List Call)
  unfolding cache_call
  segment_calls addr size seg =
      let seg_addr = vm_addr + seg.offset_b in
      let seg_size = seg.offset_e - seg.offset_b in
      let addr_b = max seg_addr addr in
      let addr_e = min (seg_addr + seg_size) (addr + size) in
      if locally_accessible seg.owner
      then some (home_seg seg_addr seg_size seg.owner seg.pm_offset ∷ [])
      else Option.map (map (cache_call seg seg_addr))
          (for_each_block block_size addr_b (addr_e - addr_b))

  pub all_calls : ℕ → ℕ → List Segment → Option (List Call)
  all_calls addr size [] = some []
  all_calls addr size (seg ∷ segs) = elim (segment_calls addr size seg) [
    | none ↦ none
    | some calls ↦ Option.map (◌++◌ calls) (all_calls addr size segs)
  ]

  pub for_each_seg_blk : (ℕ → Segment) → ℕ → ℕ → Option (List Call)
  unfolding all_calls
  for_each_seg_blk get_segment addr size =
      elim (for_each_mem_segment get_segment (addr - vm_addr) size) [
        | none ↦ none
        | some segs ↦ all_calls addr size segs
      ]
