-- ===== src/Ori/HomeManager/Hits.antt =====
-- include/ityr/ori/home_manager.hpp: checkout_seg of a segment that is cached.
use itoyori.Prelude.{
  IsNatural, IsPositive, ℕ, ◌/◌, ◌≡◌, refl, sym, ap, subst, ◌∙◌, inl, inr, Bool, true, List, [],
  ◌∷◌, ◌++◌, some, arith, get_elem?, ◌==◌, Bool-cases,
}
use itoyori.Ori.CacheSystem.{CacheSystem, ok, ensure_cached, find}
use itoyori.Ori.CacheSystem.Invariant.{Inv, HasKey}
use itoyori.Ori.CacheSystem.Served.{Hit}
use itoyori.Ori.HomeManager.{MmapEntry, mmap_entry, HomeManager, checkout_seg}
use itoyori.Ori.HomeManager.Backing.{HomeSegments}
use itoyori.Ori.HomeManager.Writes.{Slot, wrote}
use itoyori.Ori.HomeManager.Slots.{counted, requested, checkout_seg-hit, checkout_seg-miss}
use itoyori.Ori.HomeManager.Pending.{listed-append, Held}
use itoyori.Ori.HomeManager.Rewrites.{wrote-Pending, listed-Pending}
use itoyori.Ori.HomeManager.Completed.{IsPending, wrote-Held}
use itoyori.Ori.HomeManager.Requests.{
  same_block, Pinned, CheckedOut, Outcome, counted-IsPositive, counted-kept, counted-IsNatural,
  key_slot, cached-Holds, Hit-Pending, done, at_done, done-Held, done-IsPending, done-Pinned,
  tlb-Held,
}

module _ {block_size : ℕ} (h : HomeSegments block_size) where
  open h use {IsSegment, size_of, pm_of, offset_of}

  module _ (inc : Bool) (a : ℕ) (ia : IsSegment a) (m : HomeManager) (p : IsPending h m)
      (pin : Pinned h m) (i : ℕ) (cs' : CacheSystem mmap_entry)
      (ran : ensure_cached true (a / block_size) m.cs ≡ ok (i, cs')) (v : Inv cs')
      (found : find (a / block_size) cs'.table ≡ some i) (s : Hit (a / block_size) i m.cs cs') where
    abbrev m' : HomeManager
    m' = record m { cs = cs' }

    m'-IsPending : IsPending h m'
    m'-IsPending = Hit-Pending h m.home_segments_to_map (a / block_size) i m cs' p v s

    others_kept :
        (ce : Slot) (me : MmapEntry) (b : ℕ)
        → get_elem? cs'.entries i ≡ some ce
        → me.addr ≡ ce.entry.addr
        → (IsPositive ce.entry.ref_count → IsPositive me.ref_count)
        → Held h true b m
        → Held h true b (wrote i ce me m')
    others_kept ce me b at same more q =
        let (f, qat) = cached-Holds h true (a / block_size) b i m cs' p.inv ran q in
        wrote-Held h true b i ce me m' at same more (record {
          idx = q.idx;
          slot = q.slot;
          found = f;
          at = qat;
          allocated = q.allocated;
          there = q.there;
          referred = q.referred;
        })

    module _ (ce : Slot) (at : get_elem? cs'.entries i ≡ some ce) (al : ce.allocated ≡ true)
        (key : ce.key ≡ a / block_size) (there : ce.entry.addr ≡ a) where
      natural : IsNatural ce.entry.ref_count
      natural = (m'-IsPending.slots i ce at).counted

      mapped-CheckedOut : CheckedOut h inc a m (
          done h inc a m i cs' m.home_segments_to_map ce
            (record ce.entry { ref_count = counted inc ce.entry })
            found
            at
            al
            there
            (counted-IsPositive h inc ce.entry natural))
      mapped-CheckedOut =
          let me : MmapEntry = record ce.entry { ref_count = counted inc ce.entry } in
          let f = (m'-IsPending.slots i ce at).used al in
          let count = counted-IsPositive h inc ce.entry natural in
          record {
            pending =
                done-IsPending h inc a m i cs' m.home_segments_to_map ce me found at al there count
                  (wrote-Pending h m.home_segments_to_map m' m'-IsPending i ce at al me
                    (record {
                      addr = refl;
                      mapped_addr = refl;
                      mapped_size = refl;
                      counted = counted-IsNatural h inc ce.entry natural;
                    })
                    (record {
                      is_segment = f.is_segment;
                      keyed = f.keyed;
                      sized = f.sized;
                      in_pm = f.in_pm;
                      at_offset = f.at_offset;
                    }));
            held = done-Held h inc a m i cs' m.home_segments_to_map ce me found at al there count;
            pinned =
                done-Pinned h inc a m i cs' m.home_segments_to_map ce me found at al there count pin
                  (λ j ne w. w) (λ j ne. ap (λ es. get_elem? es j) s.same_entries);
            others = λ b q.
                tlb-Held h inc a m i cs' m.home_segments_to_map ce me found at al there count b
                  (others_kept ce me b at refl (counted-kept h inc ce.entry) q);
          }

      abbrev l : List ℕ
      l = m.home_segments_to_map ++ (i ∷ [])

      abbrev me : MmapEntry
      me = requested inc a (size_of a) (pm_of a) (offset_of a) i ce.entry

      waiting-CheckedOut : CheckedOut h inc a m (
          done h inc a m i cs' l ce me found at al refl (counted-IsPositive h inc ce.entry natural))
      waiting-CheckedOut =
          let count = counted-IsPositive h inc ce.entry natural in
          record {
            pending = done-IsPending h inc a m i cs' l ce me found at al refl count (
                listed-Pending h m.home_segments_to_map (wrote i ce me m')
                  (wrote-Pending h m.home_segments_to_map m' m'-IsPending i ce at al me
                    (record {
                      addr = sym there;
                      mapped_addr = refl;
                      mapped_size = refl;
                      counted = counted-IsNatural h inc ce.entry natural;
                    })
                    (record {
                      is_segment = ia;
                      keyed = sym key;
                      sized = refl;
                      in_pm = refl;
                      at_offset = refl;
                    }))
                  i (record ce { entry = me })
                  (at_done h inc a m i cs' l ce me found at al refl count) al);
            held = done-Held h inc a m i cs' l ce me found at al refl count;
            pinned =
                done-Pinned h inc a m i cs' l ce me found at al refl count pin
                  (λ j ne w. ground (arith, listed-append j i m.home_segments_to_map, ne, w))
                  (λ j ne. ap (λ es. get_elem? es j) s.same_entries);
            others = λ b q.
                tlb-Held h inc a m i cs' l ce me found at al refl count b
                  (others_kept ce me b at (sym there) (counted-kept h inc ce.entry) q);
          }

    pub Hit-Outcome :
        HasKey (a / block_size) (get_elem? cs'.entries i)
        → Outcome h inc a m
            (checkout_seg block_size true inc a (size_of a) (pm_of a) (offset_of a) m)
    Hit-Outcome hk =
        let (ce, at, al, key) = key_slot h (a / block_size) i cs'.entries hk in
        let f = (m'-IsPending.slots i ce at).used al in
        let there = same_block h ce.entry.addr a f.is_segment ia (f.keyed ∙ key) in
        elim (Bool-cases (a == ce.entry.mapped_addr)) [
          | inl e ↦
              subst (Outcome h inc a m)
                (sym (
                  checkout_seg-hit inc a (size_of a) (pm_of a) (offset_of a) i block_size m cs' ce
                    ran at e))
                (mapped-CheckedOut ce at al key there)
          | inr e ↦
              subst (Outcome h inc a m)
                (sym (
                  checkout_seg-miss inc a (size_of a) (pm_of a) (offset_of a) i block_size m cs' ce
                    ran at e))
                (waiting-CheckedOut ce at al key there)
        ]
