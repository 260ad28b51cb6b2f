-- ===== src/Ori/Core/Tests.antt =====
-- include/ityr/ori/core.hpp: runs of the loops over blocks and segments.
use itoyori.Prelude.{
  ℕ, ◌+◌, ◌-◌, ◌*◌, ◌^◌, ◌≤◌, ◌<◌, ◌≡◌, refl, ◌⊎◌, Bool, List, [], ◌∷◌, some, ◌==◌, arith,
}
use itoyori.Common.Pow2.{round_down_pow2}
use itoyori.Ori.MemMapper.Cyclic
use itoyori.Ori.MemMapper.Cyclic.{CyclicMapper, mapper_cyclic}
use itoyori.Ori.MemMapper.Walk.{for_each_mem_segment}
use itoyori.Ori.Core.{
  BlockCall, Call, home_seg, cache_blk, for_each_block, segment_calls, all_calls, for_each_seg_blk,
}
use itoyori.Ori.Core.Blocks.{OneBlock, covering, for_each_block-Requested}
use itoyori.Ori.Core.Homes.{targets, home_of}
use itoyori.Ori.Core.Ranges.{InAllocation, for_each_seg_blk-home_of}

abbrev block_call : ℕ → ℕ → ℕ → BlockCall
block_call blk b e = record { blk_addr = blk; req_addr_b = b; req_addr_e = e }

blocks_run :
    for_each_block 16 53 40
    ≡ some (block_call 48 53 64 ∷ block_call 64 64 80 ∷ block_call 80 80 93 ∷ [])
unfolding for_each_block round_down_pow2
blocks_run = refl

for_each_block-Requested_example :
    (cs : List BlockCall) × (for_each_block (2 ^ 4) 53 40 ≡ some cs)
    × ((x : ℕ) → 53 ≤ x → x < 53 + 40 → OneBlock (2 ^ 4) (round_down_pow2 53 (2 ^ 4)) x cs)
    × ((x : ℕ) → (x < 53) ⊎ (53 + 40 ≤ x) → covering x cs ≡ [])
for_each_block-Requested_example = for_each_block-Requested 4 53 40 (omega arith) (omega arith)

-- Twelve segments of two blocks on four ranks, at address 2 ^ 20; rank 0 is near.
abbrev bs : ℕ
bs = 65536

abbrev twelve : CyclicMapper
twelve = record { size = bs * 2 * 12 - 1; n_ranks = 4; seg_size = bs * 2 }

twelve-IsValid : Cyclic.IsValid twelve
twelve-IsValid = record { sized = omega arith; ranks = omega arith; bytes = omega arith }

abbrev near : ℕ → Bool
near rank = rank == 0

seg_blk_run :
    for_each_seg_blk bs (2 ^ 20) near (Cyclic.get_segment twelve) (2 ^ 20 + 10) (bs * 3)
    ≡ some (
        home_seg (2 ^ 20) (bs * 2) 0 0
        ∷ cache_blk (2 ^ 20 + bs * 2) (2 ^ 20 + bs * 2) (2 ^ 20 + bs * 3) 1 0
        ∷ cache_blk (2 ^ 20 + bs * 3) (2 ^ 20 + bs * 3) (2 ^ 20 + bs * 3 + 10) 1 bs
        ∷ [])
unfolding for_each_seg_blk for_each_mem_segment segment_calls all_calls for_each_block
    round_down_pow2 Cyclic.get_segment
seg_blk_run = refl

twelve_allocation :
    InAllocation (mapper_cyclic twelve-IsValid) 16 (2 ^ 20) near (2 ^ 20 + 10) (bs * 3)
unfolding Cyclic.get_segment Cyclic.effective_size
twelve_allocation = record {
  small = omega arith;
  vm_aligned = λ o h. omega arith;
  not_empty = omega arith;
  above = omega arith;
  inside = omega arith;
  fits = omega arith;
}

for_each_seg_blk-home_of_example :
    (cs : List Call) × (for_each_seg_blk
        (2 ^ 16)
        (2 ^ 20)
        near
        (Cyclic.get_segment twelve)
        (2 ^ 20 + 10)
        (bs * 3)
      ≡ some cs)
    × ((x : ℕ)
        → 2 ^ 20 + 10 ≤ x
        → x < 2 ^ 20 + 10 + bs * 3
        → targets x cs ≡ home_of (Cyclic.get_segment twelve (x - 2 ^ 20)) (x - 2 ^ 20) ∷ [])
for_each_seg_blk-home_of_example =
    for_each_seg_blk-home_of (mapper_cyclic twelve-IsValid) 16 (2 ^ 20) near (2 ^ 20 + 10) (bs * 3)
      twelve_allocation
