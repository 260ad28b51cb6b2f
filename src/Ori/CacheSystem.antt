-- ===== src/Ori/CacheSystem.antt =====
-- include/ityr/ori/cache_system.hpp: a fully associative cache of `n` entries with a table from
-- keys to entries and a list of the entries in the order of their last use. The entry type is a
-- template parameter with callbacks; those that reach out of the entry act on an outer state.
pub mod Maps
pub mod Slots
pub mod Invariant
pub mod Eviction
pub mod Served
mod Tests
use itoyori.Prelude.{
  ℕ, zero, suc, ◌+◌, Bool, true, false, List, [], ◌∷◌, ◌++◌, Option, none, some, ◌==◌,
  if◌then◌else◌, set, get_elem?,
}

-- The callbacks of an entry type: `on_evict` acts on the entry and on the state around the cache.
pub record Entry : Type 1 where
  pub E : Type 0
  pub Outer : Type 0
  pub is_evictable : E → Outer → Bool
  pub on_evict : E → Outer → E × Outer
  pub on_cache_map : ℕ → E → E

module _ (C : Entry) where
  open C use {E, Outer}

  -- `cache_entry`; its `idx` is its place in the vector and its `lru_it` its place in the list.
  pub record CacheEntry : Type 0 where
    pub allocated : Bool
    pub key : ℕ
    pub entry : E

  pub record CacheSystem : Type 0 where
    pub entry_initial_state : E
    pub entries : List CacheEntry
    pub lru : List ℕ
    pub table : List (ℕ × ℕ)
    pub outer : Outer

-- `table_.find`, `table_[key] = idx` and `table_.erase` of the hash table.
unfoldable pub find : ℕ → List (ℕ × ℕ) → Option ℕ
find k [] = none
find k ((j, i) ∷ m) = if j == k then some i else find k m

unfoldable pub erase : ℕ → List (ℕ × ℕ) → List (ℕ × ℕ)
erase k [] = []
erase k ((j, i) ∷ m) = let rest = erase k m in if j == k then rest else (j, i) ∷ rest

abbrev pub assign : ℕ → ℕ → List (ℕ × ℕ) → List (ℕ × ℕ)
assign k i m = (k, i) ∷ erase k m

-- `lru_.splice(lru_.end(), lru_, it)` for the place of `idx`.
unfoldable pub unlink : ℕ → List ℕ → List ℕ
unlink idx [] = []
unlink idx (i ∷ l) = let rest = i ∷ unlink idx l in if i == idx then l else rest

unfoldable pub move_to_back : ℕ → List ℕ → List ℕ
unfolding unlink
move_to_back idx l = unlink idx l ++ (idx ∷ [])

-- `cache_full_exception`, or the value.
pub data Result (A : Type 0) : Type 0 where
  ok : A → Result A
  cache_full : Result A

-- `init_lru`: 0, 1, …
unfoldable pub range_from : ℕ → ℕ → List ℕ
range_from i zero = []
range_from i (suc n) = i ∷ range_from (i + 1) n

module _ {C : Entry} where
  open C use {E, Outer, is_evictable, on_evict, on_cache_map}

  unfoldable pub blank : E → ℕ → List (CacheEntry C)
  blank e zero = []
  blank e (suc n) = record { allocated = false; key = 0; entry = e } ∷ blank e n

  -- The constructor.
  unfoldable pub init : ℕ → E → Outer → CacheSystem C
  unfolding blank range_from
  init nentries e o = record {
    entry_initial_state = e;
    entries = blank e nentries;
    lru = range_from 0 nentries;
    table = [];
    outer = o;
  }

  unfoldable pub is_cached : ℕ → CacheSystem C → Bool
  unfolding find
  is_cached key cs = elim (find key cs.table) [ none ↦ false | some i ↦ true ]

  -- The eviction of `get_empty_slot`: the entry keeps its key and what `on_evict` makes of it.
  unfoldable pub evict_at : ℕ → CacheEntry C → CacheSystem C → CacheSystem C
  unfolding erase
  evict_at idx ce cs =
      let r = on_evict ce.entry cs.outer in
      record cs {
        entries = set cs.entries idx (record ce { entry = r.0; allocated = false });
        table = erase ce.key cs.table;
        outer = r.1;
      }

  -- The loop of `get_empty_slot` over the LRU list. An index out of the vector does not occur.
  unfoldable pub slot_in : List ℕ → CacheSystem C → Result (ℕ × CacheSystem C)
  slot_in [] cs = cache_full
  slot_in (idx ∷ rest) cs = elim (get_elem? cs.entries idx) [
    | none ↦ slot_in rest cs
    | some ce ↦ elim ce.allocated [
      | false ↦ ok (idx, cs)
      | true ↦ elim (is_evictable ce.entry cs.outer) [
        | false ↦ slot_in rest cs
        | true ↦ ok (idx, evict_at idx ce cs)
      ]
    ]
  ]

  unfoldable pub get_empty_slot : CacheSystem C → Result (ℕ × CacheSystem C)
  unfolding slot_in
  get_empty_slot cs = slot_in cs.lru cs

  -- `if constexpr (UpdateLRU)`
  unfoldable pub touch : Bool → ℕ → CacheSystem C → CacheSystem C
  unfolding move_to_back
  touch update_lru idx cs = if update_lru then record cs { lru = move_to_back idx cs.lru } else cs

  -- The entry at the slot is mapped to the key.
  unfoldable pub map_slot : ℕ → ℕ → CacheSystem C → CacheSystem C
  map_slot key idx cs = elim (get_elem? cs.entries idx) [
    | none ↦ cs
    | some ce ↦ record cs {
      entries =
          set cs.entries idx
            (record { allocated = true; key = key; entry = on_cache_map idx ce.entry });
      table = assign key idx cs.table;
    }
  ]

  -- The entry that is returned is the one at the index.
  unfoldable pub ensure_cached : Bool → ℕ → CacheSystem C → Result (ℕ × CacheSystem C)
  unfolding find get_empty_slot touch map_slot
  ensure_cached update_lru key cs = elim (find key cs.table) [
    | some idx ↦ ok (idx, touch update_lru idx cs)
    | none ↦ elim (get_empty_slot cs) [
      | cache_full ↦ cache_full
      | ok (idx, cs') ↦ ok (idx, touch update_lru idx (map_slot key idx cs'))
    ]
  ]

  -- `none` is the failed check that the entry is evictable.
  unfoldable pub ensure_evicted : ℕ → CacheSystem C → Option (CacheSystem C)
  unfolding find erase
  ensure_evicted key cs = elim (find key cs.table) [
    | none ↦ some cs
    | some idx ↦ elim (get_elem? cs.entries idx) [
      | none ↦ none
      | some ce ↦
          if is_evictable ce.entry cs.outer
          then some (record cs {
            entries =
                set cs.entries idx
                  (record { allocated = false; key = 0; entry = cs.entry_initial_state });
            table = erase key cs.table;
            outer = (on_evict ce.entry cs.outer).1;
          })
          else none
    ]
  ]

  -- `for_each_entry`: the function acts on each allocated entry and on the state around the cache.
  each_in : (E → Outer → E × Outer) → List (CacheEntry C) → Outer → List (CacheEntry C) × Outer
  each_in f [] o = ([], o)
  each_in f (ce ∷ ces) o =
      let r = if ce.allocated then f ce.entry o else (ce.entry, o) in
      let rest = each_in f ces r.1 in (record ce { entry = r.0 } ∷ rest.0, rest.1)

  unfoldable pub for_each_entry : (E → Outer → E × Outer) → CacheSystem C → CacheSystem C
  unfolding each_in
  for_each_entry f cs =
      let r = each_in f cs.entries cs.outer in record cs { entries = r.0; outer = r.1 }
