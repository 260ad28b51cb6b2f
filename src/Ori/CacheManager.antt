-- ===== src/Ori/CacheManager.antt =====
-- include/ityr/ori/cache_manager.hpp: the write-back cache of remote memory. Blocks of the cache
-- system hold copies of home blocks; `Event` lists what is asked of RMA and of the memory map.
pub mod Dirty
pub mod Checkout
pub mod Fetch
pub mod Exhausted
mod Tests
use itoyori.Prelude.{
  ℤ, equals_zero, ℕ, ◌+◌, ◌-◌, ◌*◌, ◌^◌, Bool, true, false, not, ◌&&◌, List, [], ◌∷◌, ◌++◌, Option,
  none, some, leb, ltb, ◌==◌, if◌then◌else◌, add64, set, get_elem?, length, map,
}
use itoyori.Common.Pow2.{round_down32, round_up32}
use itoyori.Ori.BlockRegions.{Region, Regions, region, region_size}
use itoyori.Ori.BlockRegions
use itoyori.Ori.CacheSystem.{Entry, CacheEntry, CacheSystem}
use itoyori.Ori.Tlb.{Tlb}
use itoyori.Ori.Tlb
use itoyori.Ori.ReleaseManager.{RmaData, increment_epoch}

-- The constants of the manager and of the build.
pub record Config : Type 0 where
  pub block_size : ℕ
  pub sub_block_size : ℕ
  pub max_dirty_cache_blocks : ℕ
  pub enable_write_through : Bool
  pub enable_lazy_release : Bool
  pub enable_vm_map : Bool

-- A cache block; a null pointer is 0, and a window is the number of its address.
pub record CacheBlock : Type 0 where
  pub entry_idx : ℕ
  pub addr : ℕ
  pub mapped_addr : ℕ
  pub win : ℕ
  pub owner : ℕ
  pub pm_offset : ℕ
  pub ref_count : ℤ
  pub writeback_epoch : ℕ
  pub valid_regions : Regions
  pub dirty_regions : Regions

-- A transfer between `cache_pos` in the cache and `disp` in the window of the owner.
pub record Transfer : Type 0 where
  pub cache_pos : ℕ
  pub bytes : ℕ
  pub win : ℕ
  pub owner : ℕ
  pub disp : ℕ

-- `rma::get_nb`, `rma::put_nb`, `rma::flush`, `mmap_no_physical_mem` and `map_to_vm`.
pub data Event : Type 0 where
  get_nb put_nb : Transfer → Event
  flush : ℕ → Event
  unmap : ℕ → Event
  map_to_vm : ℕ → ℕ → Event

-- What the callbacks of a cache block reach outside of it: `writeback_epoch_` and `cache_tlb_`,
-- whose entries are pointers to blocks, the indices of the blocks.
pub record Shared : Type 0 where
  pub writeback_epoch : ℕ
  pub cache_tlb : Tlb ℕ ℕ

-- std::numeric_limits<cache_entry_idx_t>::max()
abbrev pub no_index : ℕ
no_index = 2 ^ 31 - 1

abbrev pub is_empty : Regions → Bool
is_empty [] = true
is_empty (r ∷ rs) = false

abbrev pub is_writing_back : CacheBlock → Shared → Bool
is_writing_back cb o = cb.writeback_epoch == o.writeback_epoch

-- `cache_block::invalidate`
abbrev pub invalidate : CacheBlock → CacheBlock
invalidate cb = record cb { valid_regions = [] }

abbrev pub block_is_evictable : CacheBlock → Shared → Bool
block_is_evictable cb o =
    equals_zero cb.ref_count && is_empty cb.dirty_regions && not (is_writing_back cb o)

abbrev pub block_on_evict : CacheBlock → Shared → CacheBlock × Shared
block_on_evict cb o = (
  record (invalidate cb) { entry_idx = no_index },
  record o { cache_tlb = Tlb.clear o.cache_tlb },
)

abbrev pub block_on_cache_map : ℕ → CacheBlock → CacheBlock
block_on_cache_map idx cb = record cb { entry_idx = idx }

-- The callbacks that make a cache block the entry type of the cache system.
abbrev pub block_entry : Entry
block_entry = record {
  E = CacheBlock;
  Outer = Shared;
  is_evictable = block_is_evictable;
  on_evict = block_on_evict;
  on_cache_map = block_on_cache_map;
}

-- Lists of pointers to blocks are lists of indices. `events` has the newest first.
pub record CacheManager : Type 0 where
  pub cs : CacheSystem block_entry
  pub fetching_wins : List ℕ
  pub cache_blocks_to_map : List ℕ
  pub dirty_cache_blocks : List ℕ
  pub writing_back_wins : List ℕ
  pub has_dirty_cache : Bool
  pub rm : RmaData
  pub events : List Event

-- `std::sort` and `std::unique`
unfoldable pub insert_unique : ℕ → List ℕ → List ℕ
insert_unique w [] = w ∷ []
insert_unique w (v ∷ vs) =
    let later = v ∷ insert_unique w vs in
    if w == v then v ∷ vs else if ltb w v then w ∷ v ∷ vs else later

unfoldable pub sort_unique : List ℕ → List ℕ
unfolding insert_unique
sort_unique [] = []
sort_unique (w ∷ ws) = insert_unique w (sort_unique ws)

-- The flushes of the windows, newest first, in front of what went before.
unfoldable pub flush_all : List ℕ → List Event → List Event
flush_all [] log = log
flush_all (w ∷ ws) log = flush_all ws (flush w ∷ log)

-- A write through the pointer to a block.
unfoldable pub put_block : ℕ → CacheBlock → CacheManager → CacheManager
put_block i cb m = elim (get_elem? m.cs.entries i) [
  | none ↦ m
  | some ce ↦ record m {
    cs = record m.cs { entries = set m.cs.entries i (record ce { entry = cb }) };
  }
]

-- The transfer of a region of a block between the cache and its home.
abbrev pub transfer : ℕ → CacheBlock → Region → Transfer
transfer block_size cb r = record {
  cache_pos = cb.entry_idx * block_size + r.begin;
  bytes = region_size r;
  win = cb.win;
  owner = cb.owner;
  disp = cb.pm_offset + r.begin;
}

unfoldable pub add_puts : ℕ → CacheBlock → Regions → List Event → List Event
add_puts block_size cb [] log = log
add_puts block_size cb (r ∷ rs) log =
    add_puts block_size cb rs (put_nb (transfer block_size cb r) ∷ log)

unfoldable pub add_gets : ℕ → CacheBlock → Regions → List Event → List Event
add_gets block_size cb [] log = log
add_gets block_size cb (r ∷ rs) log =
    add_gets block_size cb rs (get_nb (transfer block_size cb r) ∷ log)

module _ (g : Config) where
  unfoldable pub pad_fetch_region : Region → Region
  pad_fetch_region br =
      region (round_down32 br.begin g.sub_block_size) (round_up32 br.end g.sub_block_size)

  -- `fetch_begin` of a block: whether a fetch has been started, the block and the events.
  unfoldable pub fetch_begin : CacheBlock → Region → List Event → Bool × CacheBlock × List Event
  unfolding pad_fetch_region add_gets
  fetch_begin cb br log =
      let br_pad = pad_fetch_region br in
      if BlockRegions.include br cb.valid_regions then (false, cb, log) else (
        true,
        record cb { valid_regions = BlockRegions.add br_pad cb.valid_regions },
        add_gets g.block_size cb (BlockRegions.inverse br_pad cb.valid_regions) log,
      )

-- `add_fetching_win`; the back of the vector is the head of the list.
unfoldable pub add_fetching_win : ℕ → List ℕ → List ℕ
add_fetching_win w [] = w ∷ []
add_fetching_win w (v ∷ vs) = if w == v then v ∷ vs else w ∷ v ∷ vs
