-- ===== src/Ori/CacheManager/Dirty.antt =====
-- Dirty blocks and their write-back: the private half of the cache manager.
pub mod Rounds
pub mod Tracking
pub mod Clean
pub mod Written
pub mod Arrival
pub mod Frame
use itoyori.Prelude.{
  ℕ, ◌+◌, Bool, true, false, not, ◌&&◌, List, [], ◌∷◌, ◌++◌, Option, none, some, leb, ltb, ◌==◌,
  if◌then◌else◌, add64, get_elem?, length,
}
use itoyori.Ori.BlockRegions.{Region, Regions}
use itoyori.Ori.BlockRegions
use itoyori.Ori.ReleaseManager.{increment_epoch}
use itoyori.Ori.CacheManager.{
  Config, CacheBlock, CacheManager, is_empty, is_writing_back, sort_unique, flush_all, put_block,
  add_puts,
}

abbrev pub no_wins : List ℕ → Bool
no_wins [] = true
no_wins (w ∷ ws) = false

-- The first half of `writeback_complete`: the flushes, and the next epoch.
unfoldable pub flush_writebacks : CacheManager → CacheManager
unfolding sort_unique flush_all
flush_writebacks m = if no_wins m.writing_back_wins then m else record m {
  events = flush_all (sort_unique m.writing_back_wins) m.events;
  writing_back_wins = [];
  cs = record m.cs {
    outer = record m.cs.outer { writeback_epoch = add64 m.cs.outer.writeback_epoch 1 };
  };
}

-- The second half: nothing is dirty any more.
unfoldable pub note_clean : CacheManager → CacheManager
unfolding increment_epoch
note_clean m =
    if no_wins m.dirty_cache_blocks && m.has_dirty_cache
    then record m { has_dirty_cache = false; rm = increment_epoch m.rm }
    else m

unfoldable pub writeback_complete : CacheManager → CacheManager
unfolding flush_writebacks note_clean
writeback_complete m = note_clean (flush_writebacks m)

-- What `writeback_begin` of a block does once no write-back of the block is under way.
unfoldable pub start_writeback : ℕ → ℕ → CacheBlock → CacheManager → CacheManager
unfolding put_block add_puts
start_writeback block_size i cb m =
    put_block i (record cb { dirty_regions = []; writeback_epoch = m.cs.outer.writeback_epoch })
      (record m {
        events = add_puts block_size cb cb.dirty_regions m.events;
        writing_back_wins = cb.win ∷ m.writing_back_wins;
      })

module _ (g : Config) where
  -- `writeback_begin(cb)`
  unfoldable pub writeback_begin_block : ℕ → CacheBlock → CacheManager → CacheManager
  unfolding writeback_complete start_writeback
  writeback_begin_block i cb m =
      start_writeback g.block_size i cb
        (if is_writing_back cb m.cs.outer then writeback_complete m else m)

  -- A round of the loop of `writeback_begin`.
  unfoldable pub writeback_round : ℕ → CacheManager → CacheManager
  unfolding writeback_begin_block
  writeback_round i m = elim (get_elem? m.cs.entries i) [
    | none ↦ m
    | some ce ↦ if is_empty ce.entry.dirty_regions then m else writeback_begin_block i ce.entry m
  ]

  unfoldable pub writeback_loop : List ℕ → CacheManager → CacheManager
  unfolding writeback_round
  writeback_loop [] m = m
  writeback_loop (i ∷ is) m = writeback_loop is (writeback_round i m)

  unfoldable pub writeback_begin : CacheManager → CacheManager
  unfolding writeback_loop
  writeback_begin m = record (writeback_loop m.dirty_cache_blocks m) { dirty_cache_blocks = [] }

  unfoldable pub ensure_all_cache_clean : CacheManager → CacheManager
  unfolding writeback_begin writeback_complete
  ensure_all_cache_clean m = writeback_complete (writeback_begin m)

  -- The part of `add_dirty_region` for a block that was clean. The vector's back is the list's end.
  unfoldable pub note_dirty : ℕ → CacheManager → CacheManager
  unfolding ensure_all_cache_clean writeback_begin
  note_dirty i m =
      let noted = record m {
        dirty_cache_blocks = m.dirty_cache_blocks ++ (i ∷ []);
        has_dirty_cache = true;
      } in
      if g.enable_write_through
      then ensure_all_cache_clean noted
      else if leb g.max_dirty_cache_blocks (length noted.dirty_cache_blocks)
      then writeback_begin noted
      else noted

  unfoldable pub add_dirty_region : ℕ → CacheBlock → Region → CacheManager → CacheManager
  unfolding note_dirty put_block
  add_dirty_region i cb br m =
      let marked =
        put_block i (record cb { dirty_regions = BlockRegions.add br cb.dirty_regions }) m in
      if is_empty cb.dirty_regions then note_dirty i marked else marked
