-- ===== src/Ori/CacheSystem/Tests.antt =====
-- Runs of a cache of two entries, and the theorems at concrete caches.
use itoyori.Prelude.{
  ◌≢◌, ℕ, zero, suc, ◌≡◌, ◌↔◌, refl, Bool, true, false, [], ◌∷◌, none, arith, get_elem?,
}
use itoyori.Ori.CacheSystem.{
  Entry, CacheSystem, ok, cache_full, find, init, get_empty_slot, evict_at, ensure_cached,
  ensure_evicted,
}
use native.Mathlib.Decide.{ℕ_discrete}
use itoyori.Ori.CacheSystem.Maps.{occurs}
use itoyori.Ori.CacheSystem.Slots.{AllBusy, Searched, get_empty_slot-Searched}
use itoyori.Ori.CacheSystem.Invariant.{Inv, Backed, Listed}
use itoyori.Ori.CacheSystem.Eviction.{
  Cached, ensure_cached-Cached, ensure_cached-full_iff, StillHolds, ensure_cached-StillHolds,
  Uncached, ensure_evicted-Uncached,
}

-- Entries that are evictable or not; the outer state counts the evictions.
abbrev flag_entry : Entry
flag_entry = record {
  E = Bool;
  Outer = ℕ;
  is_evictable = λ e o. e;
  on_evict = λ e o. (e, suc o);
  on_cache_map = λ i e. e;
}

abbrev fresh : CacheSystem flag_entry
fresh = record {
  entry_initial_state = true;
  entries =
      record { allocated = false; key = 0; entry = true }
      ∷ record { allocated = false; key = 0; entry = true }
      ∷ [];
  lru = 0 ∷ 1 ∷ [];
  table = [];
  outer = 0;
}

-- Key 7 in slot 0 and pinned, key 8 in slot 1.
abbrev used : CacheSystem flag_entry
used = record {
  entry_initial_state = true;
  entries =
      record { allocated = true; key = 7; entry = false }
      ∷ record { allocated = true; key = 8; entry = true }
      ∷ [];
  lru = 0 ∷ 1 ∷ [];
  table = (8, 1) ∷ (7, 0) ∷ [];
  outer = 0;
}

fresh_run : init {C = flag_entry} 2 true 0 ≡ fresh
unfolding init
fresh_run = refl

-- Key 9 evicts key 8 from slot 1, since slot 0 is pinned.
evict_run :
    ensure_cached true 9 used
    ≡ ok (
      1,
      record used {
        entries =
            record { allocated = true; key = 7; entry = false }
            ∷ record { allocated = true; key = 9; entry = true }
            ∷ [];
        table = (9, 1) ∷ (7, 0) ∷ [];
        outer = 1;
      },
    )
unfolding ensure_cached evict_at
evict_run = refl

used-Backed : (k : ℕ) → Backed used.entries k (find k used.table)
unfolding find
used-Backed k = elim (ℕ_discrete 8 k) [
  | yes e ↦ rw (← e) (refl, refl)
  | no e ↦ elim (ℕ_discrete 7 k) [ yes f ↦ rw (← f) (refl, refl) | no f ↦ rw (none_else k e f) tt ]
]
  where
    none_else : (k : ℕ) → 8 ≢ k → 7 ≢ k → find k used.table ≡ none
    none_else k e f = ground arith

used-Listed : (i : ℕ) → Listed used.table i (get_elem? used.entries i)
unfolding find
used-Listed zero = refl
used-Listed (suc zero) = refl
used-Listed (suc (suc i)) = tt

used-Inv : Inv used
unfolding occurs
used-Inv = record { backed = used-Backed; listed = used-Listed; lru_once = λ i. ground arith }

get_empty_slot-Searched_example : Searched used (0 ∷ 1 ∷ []) (get_empty_slot used)
get_empty_slot-Searched_example = get_empty_slot-Searched used

ensure_cached-Cached_example : Cached 9 (ensure_cached true 9 used)
ensure_cached-Cached_example = ensure_cached-Cached true 9 used used-Inv

ensure_cached-full_iff_example :
    (ensure_cached true 9 used ≡ cache_full)
    ↔ ((find 9 used.table ≡ none) × AllBusy used (0 ∷ 1 ∷ []))
ensure_cached-full_iff_example = ensure_cached-full_iff true 9 used

ensure_cached-StillHolds_example :
    StillHolds 7 0 (record { allocated = true; key = 7; entry = false }) (ensure_cached true 9 used)
unfolding find
ensure_cached-StillHolds_example =
    ensure_cached-StillHolds 7 0 (record { allocated = true; key = 7; entry = false }) true 9 used
      used-Inv (refl, refl) refl

ensure_evicted-Uncached_example : Uncached 8 used (ensure_evicted 8 used)
ensure_evicted-Uncached_example = ensure_evicted-Uncached 8 used used-Inv
