-- ===== src/Ori/CacheManager/Checkout.antt =====
-- The public operations of the cache manager. A template argument is a Boolean argument, and the
-- result is none where the source dies because every block is checked out.
use itoyori.Prelude.{
  increment, decrement, ℕ, ◌+◌, ◌-◌, ◌*◌, ◌/◌, Bool, true, false, not, ◌&&◌, List, [], ◌∷◌, ◌++◌,
  Option, none, some, ltb, ◌==◌, if◌then◌else◌, get_elem?,
}
use mathlib.Core.List.{reverse}
use itoyori.Common.Pow2.{round_down_pow2}
use itoyori.Ori.BlockRegions.{Region, Regions, region}
use itoyori.Ori.BlockRegions
use itoyori.Ori.Tlb
use itoyori.Ori.CacheSystem.{CacheSystem, Result, ok, cache_full}
use itoyori.Ori.CacheSystem
use itoyori.Ori.ReleaseManager.{
  ReleaseHandler, get_release_handler, get_dummy_handler, release_requested,
}
use itoyori.Ori.CacheManager.{
  Config, CacheBlock, CacheManager, invalidate, put_block, fetch_begin, add_fetching_win, flush_all,
  unmap, map_to_vm, Event,
}
use itoyori.Ori.CacheManager.Dirty.{ensure_all_cache_clean, add_dirty_region, writeback_complete}

-- The block at an index and the manager, if the index is one.
abbrev pub with_block : ℕ → CacheManager → (CacheBlock → CacheManager) → CacheManager
with_block i m f = elim (get_elem? m.cs.entries i) [ none ↦ m | some ce ↦ f ce.entry ]

module _ (g : Config) where
  abbrev pub cache_key : ℕ → ℕ
  cache_key addr = addr / g.block_size

  -- `get_entry`: the index of the block; when the cache is full, all is written back before a retry.
  unfoldable pub get_entry : Bool → ℕ → CacheManager → Option (ℕ × CacheManager)
  get_entry update_lru addr m = elim (CacheSystem.ensure_cached update_lru (cache_key addr) m.cs) [
    | ok (i, cs') ↦ some (i, record m { cs = cs' })
    | cache_full ↦
        let cleaned = ensure_all_cache_clean g m in
        elim (CacheSystem.ensure_cached update_lru (cache_key addr) cleaned.cs) [
          | ok (i, cs') ↦ some (i, record cleaned { cs = cs' })
          | cache_full ↦ none
        ]
  ]

  -- The region is made valid, by a fetch unless it is only to be written; then the reference count.
  unfoldable pub prepare : Bool → Bool → ℕ → CacheBlock → Region → CacheManager → CacheManager
  unfolding put_block fetch_begin add_fetching_win
  prepare skip_fetch increment_ref i cb br m =
      let f = fetch_begin g cb br m.events in
      let counted : CacheBlock → CacheBlock = λ b. record b {
        ref_count = if increment_ref then increment b.ref_count else b.ref_count;
      } in
      if skip_fetch
      then put_block i
          (counted (record cb { valid_regions = BlockRegions.add br cb.valid_regions })) m
      else put_block i (counted f.1) (record m {
        events = f.2;
        fetching_wins = if f.0 then add_fetching_win cb.win m.fetching_wins else m.fetching_wins;
      })

  -- The request is within one block.
  abbrev pub one_block : ℕ → ℕ → ℕ → Bool
  one_block blk_addr addr size = not (ltb (blk_addr + g.block_size) (addr + size))

  unfoldable pub checkout_fast : Bool → Bool → ℕ → ℕ → CacheManager → Bool × CacheManager
  unfolding prepare
  checkout_fast skip_fetch increment_ref addr size m =
      let blk_addr = round_down_pow2 addr g.block_size in
      let looked_up = Tlb.get (λ k. k == blk_addr) m.cs.outer.cache_tlb in
      let m' = record m {
        cs = record m.cs { outer = record m.cs.outer { cache_tlb = looked_up.1 } };
      } in
      if one_block blk_addr addr size
      then elim looked_up.0 [
        | none ↦ (false, m')
        | some i ↦ (
          true,
          with_block i m' (λ cb.
              prepare skip_fetch increment_ref i cb
                (region (addr - blk_addr) (addr + size - blk_addr)) m'),
        )
      ]
      else (false, m)

  -- The block takes over the address, and is queued to be mapped there.
  unfoldable pub place : ℕ → ℕ → ℕ → ℕ → ℕ → CacheBlock → CacheManager → CacheManager
  unfolding put_block
  place blk_addr win owner pm_offset i cb m =
      let placed = record cb { addr = blk_addr; win = win; owner = owner; pm_offset = pm_offset } in
      if blk_addr == cb.mapped_addr
      then m
      else if g.enable_vm_map
      then record (put_block i placed m) { cache_blocks_to_map = m.cache_blocks_to_map ++ (i ∷ []) }
      else put_block i (record placed { mapped_addr = blk_addr }) m

  unfoldable pub checkout_blk :
      Bool → Bool → ℕ → ℕ → ℕ → ℕ → ℕ → ℕ → CacheManager → Option CacheManager
  unfolding get_entry place prepare
  checkout_blk skip_fetch increment_ref blk_addr req_addr_b req_addr_e win owner pm_offset m =
      elim (get_entry true blk_addr m) [
        | none ↦ none
        | some (i, m1) ↦
            let m2 = with_block i m1 (λ cb. place blk_addr win owner pm_offset i cb m1) in
            let br = region (req_addr_b - blk_addr) (req_addr_e - blk_addr) in
            let m3 = with_block i m2 (λ cb. prepare skip_fetch increment_ref i cb br m2) in
            some (record m3 {
              cs = record m3.cs {
                outer = record m3.cs.outer { cache_tlb = Tlb.add blk_addr i m3.cs.outer.cache_tlb };
              };
            })
      ]

  -- `update_mapping`
  unfoldable pub update_mapping : ℕ → CacheBlock → CacheManager → CacheManager
  unfolding put_block
  update_mapping i cb m =
      let unmapped : List Event =
        if cb.mapped_addr == 0 then m.events else unmap cb.mapped_addr ∷ m.events in
      put_block i (record cb { mapped_addr = cb.addr })
        (record m { events = map_to_vm cb.addr (cb.entry_idx * g.block_size) ∷ unmapped })

  unfoldable pub map_blocks : List ℕ → CacheManager → CacheManager
  unfolding update_mapping
  map_blocks [] m = m
  map_blocks (i ∷ is) m = map_blocks is (with_block i m (λ cb. update_mapping i cb m))

  -- `fetch_complete`; the wins are flushed from the first to the last.
  unfoldable pub fetch_complete : CacheManager → CacheManager
  unfolding flush_all
  fetch_complete m = record m {
    events = flush_all (reverse m.fetching_wins) m.events;
    fetching_wins = [];
  }

  unfoldable pub checkout_complete : CacheManager → CacheManager
  unfolding map_blocks fetch_complete
  checkout_complete m =
      let mapped = record (map_blocks m.cache_blocks_to_map m) { cache_blocks_to_map = [] } in
      fetch_complete (if g.enable_vm_map then mapped else m)

  -- The end of a checkin: the region is dirty, and the block is no longer referred to.
  unfoldable pub give_back : Bool → Bool → ℕ → Region → CacheManager → CacheManager
  unfolding add_dirty_region put_block
  give_back register_dirty decrement_ref i br m =
      let m1 = if register_dirty then with_block i m (λ cb. add_dirty_region g i cb br m) else m in
      if decrement_ref
      then with_block i m1 (λ cb. put_block i (record cb { ref_count = decrement cb.ref_count }) m1)
      else m1

  unfoldable pub checkin_fast : Bool → Bool → ℕ → ℕ → CacheManager → Bool × CacheManager
  unfolding give_back
  checkin_fast register_dirty decrement_ref addr size m =
      let blk_addr = round_down_pow2 addr g.block_size in
      let looked_up = Tlb.get (λ k. k == blk_addr) m.cs.outer.cache_tlb in
      let m' = record m {
        cs = record m.cs { outer = record m.cs.outer { cache_tlb = looked_up.1 } };
      } in
      if one_block blk_addr addr size
      then elim looked_up.0 [
        | none ↦ (false, m')
        | some i ↦ (
          true,
          give_back register_dirty decrement_ref i
              (region (addr - blk_addr) (addr + size - blk_addr)) m',
        )
      ]
      else (false, m)

  unfoldable pub checkin_blk : Bool → Bool → ℕ → ℕ → ℕ → CacheManager → Option CacheManager
  unfolding get_entry give_back
  checkin_blk register_dirty decrement_ref blk_addr req_addr_b req_addr_e m =
      elim (get_entry false blk_addr m) [
        | none ↦ none
        | some (i, m1) ↦ some (
            give_back register_dirty decrement_ref i
              (region (req_addr_b - blk_addr) (req_addr_e - blk_addr)) m1)
      ]

  -- `release_lazy` of a build with lazy release.
  unfoldable pub release_lazy : ℕ → CacheManager → ReleaseHandler
  release_lazy my_rank m =
      if m.has_dirty_cache then get_release_handler my_rank m.rm else get_dummy_handler

  -- `invalidate_all`
  unfoldable pub invalidate_all : CacheManager → CacheManager
  invalidate_all m = record m { cs = CacheSystem.for_each_entry (λ cb o. (invalidate cb, o)) m.cs }

  -- `acquire`, of which `ensure_released` waits for another rank.
  unfoldable pub acquire : CacheManager → CacheManager
  unfolding invalidate_all
  acquire m = invalidate_all (ensure_all_cache_clean g m)

  unfoldable pub poll : CacheManager → CacheManager
  poll m = if g.enable_lazy_release && release_requested m.rm then ensure_all_cache_clean g m else m

  -- `none` is the failed check of the cache system.
  unfoldable pub ensure_evicted : ℕ → CacheManager → Option CacheManager
  ensure_evicted addr m = elim (CacheSystem.ensure_evicted (cache_key addr) m.cs) [
    | none ↦ none
    | some cs' ↦ some (record m { cs = cs' })
  ]

  -- The part of `discard_dirty` on a block.
  unfoldable pub discard_block : ℕ → CacheBlock → Region → CacheManager → CacheManager
  unfolding put_block writeback_complete
  discard_block i cb br m =
      put_block i (record cb { dirty_regions = BlockRegions.remove br cb.dirty_regions })
        (if cb.writeback_epoch == m.cs.outer.writeback_epoch then writeback_complete m else m)

  unfoldable pub discard_dirty : ℕ → ℕ → ℕ → CacheManager → Option CacheManager
  unfolding get_entry discard_block
  discard_dirty blk_addr req_addr_b req_addr_e m =
      if CacheSystem.is_cached (cache_key blk_addr) m.cs
      then elim (get_entry true blk_addr m) [
        | none ↦ none
        | some (i, m1) ↦ some (
            with_block i m1 (λ cb.
              discard_block i cb (region (req_addr_b - blk_addr) (req_addr_e - blk_addr)) m1))
      ]
      else some m
