-- ===== src/Ori/CacheManager/Tests.antt =====
-- Runs of a cache of two blocks of 16 bytes, and the theorems at concrete managers.
use itoyori.Prelude.{
  pos, ℕ, zero, suc, ◌≡◌, ◌↔◌, refl, true, false, [], ◌∷◌, none, arith, get_elem?,
}
use mathlib.Core.Bool.{true≢false}
use itoyori.Common.Pow2.{round_down32, round_up32}
use itoyori.Ori.BlockRegions.{Regions, region}
use itoyori.Ori.BlockRegions
use itoyori.Ori.CacheSystem.{find}
use itoyori.Ori.Tlb
use itoyori.Ori.CacheManager.{
  Config, CacheBlock, CacheManager, get_nb, put_nb, flush, fetch_begin, no_index,
}
use itoyori.Ori.CacheManager.Dirty.{ensure_all_cache_clean}
use itoyori.Ori.CacheManager.Dirty.Rounds.{Slot}
use itoyori.Ori.CacheManager.Dirty.Clean.{IsClean, ensure_all_cache_clean-IsClean}
use itoyori.Ori.CacheManager.Dirty.Tracking.{Tracked, IsTracked}
use itoyori.Ori.CacheManager.Exhausted.{AllPinned, get_entry-none_iff}
use itoyori.Ori.CacheManager.Checkout.{get_entry}

abbrev small : Config
small = record {
  block_size = 16;
  sub_block_size = 4;
  max_dirty_cache_blocks = 8;
  enable_write_through = false;
  enable_lazy_release = true;
  enable_vm_map = true;
}

-- Bytes 0 to 8 are valid, and bytes 2 to 5 dirty.
abbrev busy_block : CacheBlock
busy_block = record {
  entry_idx = 1;
  addr = 160;
  mapped_addr = 160;
  win = 7;
  owner = 3;
  pm_offset = 64;
  ref_count = pos 0;
  writeback_epoch = 0;
  valid_regions = region 0 8 ∷ [];
  dirty_regions = region 2 5 ∷ [];
}

abbrev new_block : CacheBlock
new_block = record busy_block {
  entry_idx = no_index;
  addr = 0;
  mapped_addr = 0;
  valid_regions = [];
  dirty_regions = [];
}

abbrev busy_slot : Slot
busy_slot = record { allocated = true; key = 10; entry = busy_block }

abbrev used : CacheManager
used = record {
  cs = record {
    entry_initial_state = new_block;
    entries = record { allocated = false; key = 0; entry = new_block } ∷ busy_slot ∷ [];
    lru = 0 ∷ 1 ∷ [];
    table = (10, 1) ∷ [];
    outer = record { writeback_epoch = 1; cache_tlb = Tlb.empty 2 };
  };
  fetching_wins = [];
  cache_blocks_to_map = [];
  dirty_cache_blocks = 1 ∷ [];
  writing_back_wins = [];
  has_dirty_cache = true;
  rm = record { current_epoch = 1; requested_epoch = 1 };
  events = [];
}

-- The write-back puts three bytes and flushes the window.
clean_run :
    (ensure_all_cache_clean small used).events
    ≡ flush 7 ∷ put_nb (record { cache_pos = 18; bytes = 3; win = 7; owner = 3; disp = 66 }) ∷ []
unfolding ensure_all_cache_clean
clean_run = refl

-- A request for bytes 6 to 10 fetches the rest of the padded region, bytes 8 to 12.
fetch_run : fetch_begin small busy_block (region 6 10) [] ≡ (
  true,
  record busy_block { valid_regions = region 0 12 ∷ [] },
  get_nb (record { cache_pos = 24; bytes = 4; win = 7; owner = 3; disp = 72 }) ∷ [],
)
unfolding fetch_begin BlockRegions.include BlockRegions.inverse BlockRegions.add round_down32
    round_up32
fetch_run = refl

used-Tracked : (i : ℕ) → Tracked (1 ∷ []) 1 true i (get_elem? used.cs.entries i)
used-Tracked zero = (λ d. absurd (true≢false d), omega arith, λ e. absurd (omega arith))
used-Tracked (suc zero) = (λ d. refl, omega arith, λ e. absurd (omega arith))
used-Tracked (suc (suc i)) = tt

used-IsTracked : IsTracked (1 ∷ []) used
used-IsTracked = record { blocks = used-Tracked; epochs_left = omega arith }

ensure_all_cache_clean-IsClean_example : IsClean (ensure_all_cache_clean small used)
ensure_all_cache_clean-IsClean_example = ensure_all_cache_clean-IsClean small used used-IsTracked

get_entry-none_iff_example :
    (get_entry small true 160 used ≡ none)
    ↔ ((find 10 used.cs.table ≡ none) × AllPinned used.cs.entries (0 ∷ 1 ∷ []))
get_entry-none_iff_example = get_entry-none_iff small true 160 used used-IsTracked
