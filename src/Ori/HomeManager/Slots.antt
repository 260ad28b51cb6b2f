-- ===== src/Ori/HomeManager/Slots.antt =====
-- include/ityr/ori/home_manager.hpp: checkout_seg as what it writes, on a hit and on a miss.
use itoyori.Prelude.{
  ℤ, increment, ℕ, ◌≡◌, refl, ap, ◌∙◌, Bool, true, false, List, [], ◌∷◌, ◌++◌, none, some,
  get_elem?, ◌==◌, if◌then◌else◌,
}
use itoyori.Ori.Tlb.{Tlb}
use itoyori.Ori.Tlb
use itoyori.Ori.CacheSystem.{CacheSystem, ok, cache_full, ensure_cached}
use itoyori.Ori.HomeManager.{
  MmapEntry, mmap_entry, HomeManager, Mapping, unmap, map_to_vm, with_entry, with_tlb, count_up,
  placed, cache_key, get_entry, request, checkout_seg,
}
use itoyori.Ori.HomeManager.Writes.{Slot, wrote, put_entry-at}

abbrev pub counted : Bool → MmapEntry → ℤ
counted increment_ref me = if increment_ref then increment me.ref_count else me.ref_count

pub count-eq :
    (inc : Bool) (me : MmapEntry) → count_up inc me ≡ record me { ref_count = counted inc me }
count-eq true me = refl
count-eq false me = refl

pub with_entry-at :
    (i : ℕ) (ce : Slot) (m : HomeManager) (f : MmapEntry → HomeManager)
    → get_elem? m.cs.entries i ≡ some ce
    → with_entry i m f ≡ f ce.entry
with_entry-at i ce m f at = rw (at, with_entry) refl

module _ (inc : Bool) (a size pm pm_offset i : ℕ) where
  -- The entry after a miss.
  abbrev pub requested : MmapEntry → MmapEntry
  requested me = record (placed a size pm pm_offset me) { ref_count = counted inc me }

  request-hit :
      (ce : Slot) (m : HomeManager)
      → get_elem? m.cs.entries i ≡ some ce
      → (a == ce.entry.mapped_addr) ≡ true
      → request inc a size pm pm_offset i ce.entry m
        ≡ wrote i ce (record ce.entry { ref_count = counted inc ce.entry }) m
  unfolding request
  request-hit ce m at e = rw e (
      put_entry-at i ce (count_up inc ce.entry) m at
      ∙ ap (λ me. wrote i ce me m) (count-eq inc ce.entry))

  request-miss :
      (ce : Slot) (m : HomeManager)
      → get_elem? m.cs.entries i ≡ some ce
      → (a == ce.entry.mapped_addr) ≡ false
      → request inc a size pm pm_offset i ce.entry m
        ≡ wrote i ce
            (requested ce.entry)
            (record m { home_segments_to_map = m.home_segments_to_map ++ (i ∷ []) })
  unfolding request
  request-miss ce m at e = rw e (
      put_entry-at i ce (count_up inc (placed a size pm pm_offset ce.entry))
        (record m { home_segments_to_map = m.home_segments_to_map ++ (i ∷ []) }) at
      ∙ ap
          (λ me.
            wrote i ce me (record m { home_segments_to_map = m.home_segments_to_map ++ (i ∷ []) }))
          (count-eq inc (placed a size pm pm_offset ce.entry)))

  module _ (block_size : ℕ) where
    abbrev pub in_tlb : HomeManager → HomeManager
    in_tlb m = with_tlb (Tlb.add (record { begin = a; size = size }) i m.cs.outer) m

    checkout_seg-ok :
        (m : HomeManager) (cs' : CacheSystem mmap_entry) (ce : Slot)
        → ensure_cached true (cache_key block_size true a) m.cs ≡ ok (i, cs')
        → get_elem? cs'.entries i ≡ some ce
        → checkout_seg block_size true inc a size pm pm_offset m
          ≡ some (in_tlb (request inc a size pm pm_offset i ce.entry (record m { cs = cs' })))
    unfolding checkout_seg get_entry
    checkout_seg-ok m cs' ce e at =
        rw (e, get_entry)
          (ap (λ m2. some (in_tlb m2))
            (with_entry-at i ce (record m { cs = cs' })
              (λ me. request inc a size pm pm_offset i me (record m { cs = cs' })) at))

    pub checkout_seg-full :
        (m : HomeManager)
        → ensure_cached true (cache_key block_size true a) m.cs ≡ cache_full
        → checkout_seg block_size true inc a size pm pm_offset m ≡ none
    unfolding checkout_seg get_entry
    checkout_seg-full m e = rw (e, get_entry) refl

    pub checkout_seg-hit :
        (m : HomeManager) (cs' : CacheSystem mmap_entry) (ce : Slot)
        → ensure_cached true (cache_key block_size true a) m.cs ≡ ok (i, cs')
        → get_elem? cs'.entries i ≡ some ce
        → (a == ce.entry.mapped_addr) ≡ true
        → checkout_seg block_size true inc a size pm pm_offset m
          ≡ some (
              in_tlb (
                wrote i ce
                  (record ce.entry { ref_count = counted inc ce.entry })
                  (record m { cs = cs' })))
    checkout_seg-hit m cs' ce e at hit =
        checkout_seg-ok m cs' ce e at
        ∙ ap (λ m2. some (in_tlb m2)) (request-hit ce (record m { cs = cs' }) at hit)

    pub checkout_seg-miss :
        (m : HomeManager) (cs' : CacheSystem mmap_entry) (ce : Slot)
        → ensure_cached true (cache_key block_size true a) m.cs ≡ ok (i, cs')
        → get_elem? cs'.entries i ≡ some ce
        → (a == ce.entry.mapped_addr) ≡ false
        → checkout_seg block_size true inc a size pm pm_offset m
          ≡ some (
              in_tlb (
                wrote i ce (requested ce.entry) (record m {
                  cs = cs';
                  home_segments_to_map = m.home_segments_to_map ++ (i ∷ []);
                })))
    checkout_seg-miss m cs' ce e at miss =
        checkout_seg-ok m cs' ce e at
        ∙ ap (λ m2. some (in_tlb m2)) (request-miss ce (record m { cs = cs' }) at miss)

-- The calls of `update_mapping`, in front of those before.
abbrev pub remapped : MmapEntry → List Mapping → List Mapping
remapped me log =
    map_to_vm me.pm me.addr me.size me.pm_offset
    ∷ (if me.mapped_addr == 0 then log else unmap me.mapped_addr me.mapped_size ∷ log)
