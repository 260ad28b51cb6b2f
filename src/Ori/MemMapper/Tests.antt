-- ===== src/Ori/MemMapper/Tests.antt =====
-- The runs of the test cases of mem_mapper.hpp, and the theorems at concrete mappers.
use itoyori.Prelude.{ℕ, ◌+◌, ◌-◌, ◌*◌, ◌≤◌, ◌<◌, ◌≡◌, refl, List, [], ◌∷◌, some, arith}
use itoyori.Ori.MemMapper.{Segment}
use itoyori.Ori.MemMapper.Block
use itoyori.Ori.MemMapper.Block.{
  BlockMapper, block, mapper_block, block-IsValid, get_segment_holds, get_segment_uniform,
}
use itoyori.Ori.MemMapper.BlockAdws
use itoyori.Ori.MemMapper.BlockAdws.{
  BlockAdwsMapper, block_adws, block_adws-IsValid, get_segment_adws_holds, get_segment_adws_uniform,
}
use itoyori.Ori.MemMapper.Cyclic
use itoyori.Ori.MemMapper.Cyclic.{
  CyclicMapper, get_segment_cyclic_holds, get_segment_cyclic_uniform, get_segment_cyclic_apart,
}
use itoyori.Ori.MemMapper.Walk.{walk, for_each_mem_segment, Tiles, for_each_mem_segment-Tiles}

abbrev bs : ℕ
bs = 65536

abbrev fourteen : BlockMapper
fourteen = record { block_size = bs; n_ranks = 4; n_blk = 14 }

abbrev segment : ℕ → ℕ → ℕ → ℕ → Segment
segment owner b e pm = record { owner = owner; offset_b = b; offset_e = e; pm_offset = pm }

block_runs :
    (block bs (bs * 14 - 1) 4 ≡ fourteen)
    × (Block.local_size fourteen 0 ≡ bs * 4)
    × (Block.local_size fourteen 1 ≡ bs * 3)
    × (Block.local_size (block bs 1 4) 1 ≡ bs)
    × (Block.get_segment fourteen (bs * 5) ≡ segment 1 (bs * 4) (bs * 7) 0)
    × (Block.get_segment fourteen (bs * 14 - 1) ≡ segment 3 (bs * 11) (bs * 14) 0)
unfolding block Block.local_size Block.get_segment
block_runs = (refl, refl, refl, refl, refl, refl)

abbrev twelve : CyclicMapper
twelve = record { size = bs * 2 * 12 - 1; n_ranks = 4; seg_size = bs * 2 }

cyclic_runs :
    (Cyclic.local_size twelve ≡ bs * 6)
    × (Cyclic.get_segment twelve (bs * 10 + 2) ≡ segment 1 (bs * 10) (bs * 12) (bs * 2))
    × (Cyclic.get_segment twelve (bs * 22) ≡ segment 3 (bs * 22) (bs * 24) (bs * 4))
unfolding Cyclic.local_size Cyclic.get_segment
cyclic_runs = (refl, refl, refl)

abbrev mirrored : BlockAdwsMapper
mirrored = record { block_size = bs; n_ranks = 4; n_blk = 14 }

block_adws_runs :
    (BlockAdws.local_size mirrored 3 ≡ bs * 3)
    × (BlockAdws.get_segment mirrored (bs * 5) ≡ segment 2 (bs * 3) (bs * 7) 0)
unfolding BlockAdws.local_size BlockAdws.get_segment
block_adws_runs = (refl, refl)

walk_runs :
    for_each_mem_segment (Block.get_segment fourteen) (bs * 3) (bs * 5)
    ≡ some (
        segment 0 0 (bs * 4) 0
        ∷ segment 1 (bs * 4) (bs * 7) 0
        ∷ segment 2 (bs * 7) (bs * 11) 0
        ∷ [])
unfolding for_each_mem_segment walk Block.get_segment
walk_runs = refl

fourteen-IsValid : Block.IsValid fourteen
fourteen-IsValid = omega arith

mirrored-IsValid : BlockAdws.IsValid mirrored
mirrored-IsValid = omega arith

twelve-IsValid : Cyclic.IsValid twelve
twelve-IsValid = omega arith

block_adws-IsValid_example :
    BlockAdws.IsValid (block_adws bs (bs * 14 - 1) 4)
    × (bs * 14 - 1 ≤ BlockAdws.effective_size (block_adws bs (bs * 14 - 1) 4))
block_adws-IsValid_example =
    block_adws-IsValid bs (bs * 14 - 1) 4 (omega arith) (omega arith) (omega arith) (omega arith)
      (omega arith)

get_segment_holds_example :
    let s = segment 1 (bs * 4) (bs * 7) 0 in
    (1 < 4)
    × (bs * 4 ≤ bs * 5)
    × (bs * 5 < bs * 7)
    × (bs * 7 ≤ bs * 14)
    × (0 + (bs * 7 - bs * 4) ≤ bs * 3)
unfolding Block.get_segment Block.effective_size Block.local_size
get_segment_holds_example = get_segment_holds fourteen-IsValid (bs * 5) (omega arith)

get_segment_adws_holds_example :
    let s = segment 2 (bs * 3) (bs * 7) 0 in
    (2 < 4)
    × (bs * 3 ≤ bs * 5)
    × (bs * 5 < bs * 7)
    × (bs * 7 ≤ bs * 14)
    × (0 + (bs * 7 - bs * 3) ≤ bs * 4)
unfolding BlockAdws.get_segment BlockAdws.effective_size BlockAdws.local_size
get_segment_adws_holds_example = get_segment_adws_holds mirrored-IsValid (bs * 5) (omega arith)

get_segment_cyclic_apart_example :
    Cyclic.get_segment twelve (bs * 10) ≡ Cyclic.get_segment twelve (bs * 11)
unfolding Cyclic.get_segment Cyclic.effective_size
get_segment_cyclic_apart_example =
    get_segment_cyclic_apart twelve-IsValid (bs * 10) (bs * 11) (omega arith) (omega arith) refl
      refl

for_each_mem_segment-Tiles_example :
    (ss : List Segment) × (for_each_mem_segment (Block.get_segment fourteen) (bs * 3) (bs * 5)
      ≡ some ss)
    × Tiles (bs * 3) (bs * 3 + bs * 5) ss
unfolding Block.effective_size
for_each_mem_segment-Tiles_example =
    for_each_mem_segment-Tiles (mapper_block fourteen-IsValid) (bs * 3) (bs * 5) (omega arith)
