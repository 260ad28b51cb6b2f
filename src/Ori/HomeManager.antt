-- ===== src/Ori/HomeManager.antt =====
-- include/ityr/ori/home_manager.hpp: the mappings of the segments that are in memory of this node, over
-- the cache system, whose entries are mappings. Calls of mmap are a list, the newest first. A template
-- argument is a Boolean argument; the result is none where the source dies as all segments are in use.
pub mod Backing
pub mod Writes
pub mod Pending
pub mod Rewrites
pub mod Completion
pub mod Completed
pub mod Requests
pub mod Hits
pub mod Takes
pub mod Slots
pub mod Checkouts
pub mod Lookups
pub mod Reaches
pub mod Runs
mod Tests
use itoyori.Prelude.{
  ℤ, pos, equals_zero, increment, decrement, ℕ, ◌+◌, ◌-◌, ◌/◌, ◌^◌, Bool, true, false, ◌&&◌, List,
  [], ◌∷◌, ◌++◌, Option, none, some, leb, ◌==◌, if◌then◌else◌, get_elem?, set,
}
use itoyori.Ori.Tlb.{Tlb}
use itoyori.Ori.Tlb
use itoyori.Ori.CacheSystem.{Entry, CacheEntry, CacheSystem, Result, ok, cache_full}
use itoyori.Ori.CacheSystem

-- `common::span`
pub record Span : Type 0 where
  pub begin : ℕ
  pub size : ℕ

-- A null pointer is 0, and a physical memory is a number.
pub record MmapEntry : Type 0 where
  pub entry_idx : ℕ
  pub addr : ℕ
  pub mapped_addr : ℕ
  pub size : ℕ
  pub mapped_size : ℕ
  pub pm : ℕ
  pub pm_offset : ℕ
  pub ref_count : ℤ

-- `mmap_no_physical_mem` and `physical_mem::map_to_vm`.
pub data Mapping : Type 0 where
  unmap : (addr size : ℕ) → Mapping
  map_to_vm : (pm addr size pm_offset : ℕ) → Mapping

-- The callbacks. What they reach outside of the entry is `home_tlb_`, whose entries are pointers to
-- entries, the indices of the entries.
abbrev pub mmap_is_evictable : MmapEntry → Tlb Span ℕ → Bool
mmap_is_evictable me t = equals_zero me.ref_count

abbrev pub mmap_on_evict : MmapEntry → Tlb Span ℕ → MmapEntry × Tlb Span ℕ
mmap_on_evict me t = (record me { entry_idx = 2 ^ 31 - 1 }, Tlb.clear t)

abbrev pub mmap_on_cache_map : ℕ → MmapEntry → MmapEntry
mmap_on_cache_map idx me = record me { entry_idx = idx }

abbrev pub mmap_entry : Entry
mmap_entry = record {
  E = MmapEntry;
  Outer = Tlb Span ℕ;
  is_evictable = mmap_is_evictable;
  on_evict = mmap_on_evict;
  on_cache_map = mmap_on_cache_map;
}

-- An entry as the constructor leaves it.
abbrev pub new_entry : MmapEntry
new_entry = record {
  entry_idx = 2 ^ 31 - 1;
  addr = 0;
  mapped_addr = 0;
  size = 0;
  mapped_size = 0;
  pm = 0;
  pm_offset = 0;
  ref_count = pos 0;
}

pub record HomeManager : Type 0 where
  pub cs : CacheSystem mmap_entry
  pub home_segments_to_map : List ℕ
  pub mappings : List Mapping

-- The constructor, with the number of slots of the tlb.
abbrev pub new_home_manager : ℕ → ℕ → HomeManager
new_home_manager mmap_entry_limit n_tlb = record {
  cs = CacheSystem.init mmap_entry_limit new_entry (Tlb.empty n_tlb);
  home_segments_to_map = [];
  mappings = [];
}

-- A write through the pointer to an entry.
pub put_entry : ℕ → MmapEntry → HomeManager → HomeManager
put_entry i me m = elim (get_elem? m.cs.entries i) [
  | none ↦ m
  | some ce ↦ record m {
    cs = record m.cs { entries = set m.cs.entries i (record ce { entry = me }) };
  }
]

-- The entry at an index and the manager, if the index is one.
abbrev pub with_entry : ℕ → HomeManager → (MmapEntry → HomeManager) → HomeManager
with_entry i m f = elim (get_elem? m.cs.entries i) [ none ↦ m | some ce ↦ f ce.entry ]

abbrev pub with_tlb : Tlb Span ℕ → HomeManager → HomeManager
with_tlb t m = record m { cs = record m.cs { outer = t } }

-- The test of a lookup in the tlb: the segment has the range.
abbrev pub has_range : ℕ → ℕ → Span → Bool
has_range addr size seg = leb seg.begin addr && leb (addr + size) (seg.begin + seg.size)

abbrev pub count_up : Bool → MmapEntry → MmapEntry
count_up increment_ref me =
    if increment_ref then record me { ref_count = increment me.ref_count } else me

abbrev pub count_down : MmapEntry → MmapEntry
count_down me = record me { ref_count = decrement me.ref_count }

-- `update_mapping`
pub update_mapping : ℕ → MmapEntry → HomeManager → HomeManager
unfolding put_entry
update_mapping i me m =
    let unmapped : List Mapping =
      if me.mapped_addr == 0
      then m.mappings
      else unmap me.mapped_addr me.mapped_size ∷ m.mappings in
    put_entry i (record me { mapped_addr = me.addr; mapped_size = me.size })
      (record m { mappings = map_to_vm me.pm me.addr me.size me.pm_offset ∷ unmapped })

pub map_entries : List ℕ → HomeManager → HomeManager
unfolding update_mapping
map_entries [] m = m
map_entries (i ∷ is) m = map_entries is (with_entry i m (λ me. update_mapping i me m))

-- What a miss writes to the entry.
abbrev pub placed : ℕ → ℕ → ℕ → ℕ → MmapEntry → MmapEntry
placed seg_addr seg_size pm pm_offset me = record me {
  addr = seg_addr;
  size = seg_size;
  pm = pm;
  pm_offset = pm_offset;
}

-- The entry is queued to be mapped unless it is mapped there; then the reference count.
pub request : Bool → ℕ → ℕ → ℕ → ℕ → ℕ → MmapEntry → HomeManager → HomeManager
unfolding put_entry
request increment_ref seg_addr seg_size pm pm_offset i me m =
    if seg_addr == me.mapped_addr
    then put_entry i (count_up increment_ref me) m
    else put_entry i (count_up increment_ref (placed seg_addr seg_size pm pm_offset me))
        (record m { home_segments_to_map = m.home_segments_to_map ++ (i ∷ []) })

module _ (block_size : ℕ) (enable_vm_map : Bool) where
  abbrev pub cache_key : ℕ → ℕ
  cache_key addr = addr / block_size

  pub get_entry : Bool → ℕ → HomeManager → Option (ℕ × HomeManager)
  get_entry update_lru addr m = elim (CacheSystem.ensure_cached update_lru (cache_key addr) m.cs) [
    | ok (i, cs') ↦ some (i, record m { cs = cs' })
    | cache_full ↦ none
  ]

  pub checkout_fast : Bool → ℕ → ℕ → HomeManager → Bool × HomeManager
  unfolding put_entry
  checkout_fast increment_ref addr size m =
      let looked_up = Tlb.get (has_range addr size) m.cs.outer in
      let m' = with_tlb looked_up.1 m in
      if enable_vm_map
      then elim looked_up.0 [
        | none ↦ (false, m')
        | some i ↦ (true, with_entry i m' (λ me. put_entry i (count_up increment_ref me) m'))
      ]
      else (false, m)

  pub checkout_seg : Bool → ℕ → ℕ → ℕ → ℕ → HomeManager → Option HomeManager
  unfolding get_entry request
  checkout_seg increment_ref seg_addr seg_size pm pm_offset m =
      if enable_vm_map
      then elim (get_entry true seg_addr m) [
        | none ↦ none
        | some (i, m1) ↦
            let m2 =
              with_entry i m1
                (λ me. request increment_ref seg_addr seg_size pm pm_offset i me m1) in
            some
              (with_tlb (Tlb.add (record { begin = seg_addr; size = seg_size }) i m2.cs.outer) m2)
      ]
      else some m

  pub checkin_fast : Bool → ℕ → ℕ → HomeManager → Bool × HomeManager
  unfolding put_entry
  checkin_fast decrement_ref addr size m =
      let looked_up = Tlb.get (has_range addr size) m.cs.outer in
      let m' = with_tlb looked_up.1 m in
      if enable_vm_map && decrement_ref
      then elim looked_up.0 [
        | none ↦ (false, m')
        | some i ↦ (true, with_entry i m' (λ me. put_entry i (count_down me) m'))
      ]
      else (false, m)

  pub checkin_seg : Bool → ℕ → HomeManager → Option HomeManager
  unfolding get_entry put_entry
  checkin_seg decrement_ref seg_addr m =
      if enable_vm_map && decrement_ref
      then elim (get_entry false seg_addr m) [
        | none ↦ none
        | some (i, m1) ↦ some (with_entry i m1 (λ me. put_entry i (count_down me) m1))
      ]
      else some m

  pub checkout_complete : HomeManager → HomeManager
  unfolding map_entries
  checkout_complete m =
      if enable_vm_map
      then record (map_entries m.home_segments_to_map m) { home_segments_to_map = [] }
      else m

  -- `none` is the failed check that the entry is evictable.
  pub ensure_evicted : ℕ → HomeManager → Option HomeManager
  ensure_evicted addr m =
      if enable_vm_map
      then elim (CacheSystem.ensure_evicted (cache_key addr) m.cs) [
        | none ↦ none
        | some cs' ↦ some (record m { cs = cs' })
      ]
      else some m
