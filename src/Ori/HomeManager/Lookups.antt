-- ===== src/Ori/HomeManager/Lookups.antt =====
-- include/ityr/ori/home_manager.hpp: checkout_fast, checkin_fast and checkin_seg, which only count.
use itoyori.Prelude.{
  ℤ, IsNatural, IsPositive, decrement, decrement-IsNatural, ℕ, ◌/◌, ◌≡◌, refl, sym, ap, subst, ◌∙◌,
  inl, inr, Bool, true, false, Option, none, some, get_elem?, get_elem?-set_self,
}
use mathlib.Core.Option.{none-ne-some, some-injective}
use itoyori.Ori.Tlb.{Tlb}
use itoyori.Ori.Tlb
use itoyori.Ori.Tlb.Members.{Every, get-Got, Got}
use itoyori.Ori.CacheSystem.{CacheSystem, Result, ok, cache_full, ensure_cached, find}
use itoyori.Ori.CacheSystem.Invariant.{HasKey, get_elem?-lt}
use itoyori.Ori.CacheSystem.Eviction.{Cached, ensure_cached-Cached}
use itoyori.Ori.CacheSystem.Served.{Served, ensure_cached-Served}
use itoyori.Ori.HomeManager.{
  HomeManager, mmap_entry, checkin_seg, get_entry, Span, with_tlb, with_entry, has_range, put_entry,
  count_up, count_down, checkout_fast, checkin_fast,
}
use itoyori.Ori.HomeManager.Backing.{HomeSegments}
use itoyori.Ori.HomeManager.Writes.{Slot, wrote, put_entry-at, get-set-cases}
use itoyori.Ori.HomeManager.Slots.{with_entry-at, counted, count-eq}
use itoyori.Ori.HomeManager.Pending.{listed, SlotFor, Held}
use itoyori.Ori.HomeManager.Rewrites.{tlb-Pending}
use itoyori.Ori.HomeManager.Completed.{IsPending, wrote-Held}
use itoyori.Ori.HomeManager.Requests.{
  Pinned, key_slot, Hit-Pending, counted-kept, counted-IsNatural,
}
use itoyori.Ori.HomeManager.Checkouts.{recounted, recounted-IsPending, InSegment, found_range}

module _ {block_size : ℕ} (h : HomeSegments block_size) where
  open h use {IsSegment, size_of, pm_of, offset_of}

  -- The list and the mappings are as before, and so is the invariant.
  pub record Same (m m2 : HomeManager) : Type 0 where
    pub pending : IsPending h m2
    pub same_list : m2.home_segments_to_map ≡ m.home_segments_to_map

  -- Moreover, what was held or pinned is.
  pub record Kept (m m2 : HomeManager) : Type 0 where
    pub same : Same m m2
    pub pinned : Pinned h m → Pinned h m2
    pub held : (b : ℕ) → Held h true b m → Held h true b m2

  with_tlb-Kept :
      (t : Tlb Span ℕ) (m : HomeManager)
      → Every (SlotFor h m.cs.entries) t.entries
      → IsPending h m
      → Kept m (with_tlb t m)
  with_tlb-Kept t m e p = record {
    same = record { pending = tlb-Pending h m.home_segments_to_map t m e p; same_list = refl };
    pinned = λ pin. pin;
    held = λ b q. record {
      idx = q.idx;
      slot = q.slot;
      found = q.found;
      at = q.at;
      allocated = q.allocated;
      there = q.there;
      referred = q.referred;
    };
  }

  recounted-Kept :
      (i : ℕ) (ce : Slot) (n : ℤ) (m0 m : HomeManager)
      → get_elem? m.cs.entries i ≡ some ce
      → ce.allocated ≡ true
      → IsNatural n
      → (IsPositive ce.entry.ref_count → IsPositive n)
      → Kept m0 m
      → Kept m0 (wrote i ce (recounted h ce.entry n) m)
  recounted-Kept i ce n m0 m at al natural more k = record {
    same = record {
      pending = recounted-IsPending h i ce n m at al natural k.same.pending;
      same_list = k.same.same_list;
    };
    pinned = λ pin j c w cat.
        elim (get-set-cases m.cs.entries i ce (record ce { entry = recounted h ce.entry n }) at j c
          cat) [
            | inl (e, new) ↦
                let old =
                  k.pinned pin i ce (subst (λ x. listed x m.home_segments_to_map ≡ true) (sym e) w)
                    at in
                subst (λ (x : Slot). IsPositive x.entry.ref_count) new (more old)
            | inr (ne, old) ↦ k.pinned pin j c w old
          ];
    held = λ b q. wrote-Held h true b i ce (recounted h ce.entry n) m at refl more (k.held b q);
  }

  -- A lookup that succeeds found the range in a segment.
  abbrev pub FastOut : ℕ → ℕ → HomeManager → Bool × HomeManager → Type 0
  FastOut addr size m (true, m2) = Kept m m2 × ((i : ℕ) × InSegment h addr size i m2)
  FastOut addr size m (false, m2) = Kept m m2

  pub checkout_fast-FastOut :
      (inc : Bool) (addr size : ℕ) (m : HomeManager)
      → IsPending h m
      → FastOut addr size m (checkout_fast block_size true inc addr size m)
  unfolding checkout_fast
  checkout_fast-FastOut inc addr size m p =
      after (Tlb.get (has_range addr size) m.cs.outer)
        (get-Got (SlotFor h m.cs.entries) (has_range addr size) m.cs.outer p.tlb)
    where
      after :
          (r : Option ℕ × Tlb Span ℕ)
          → Got (SlotFor h m.cs.entries) (has_range addr size) r
          → FastOut addr size m (elim r.0 [
            | none ↦ (false, with_tlb r.1 m)
            | some i ↦ (
              true,
              with_entry i (with_tlb r.1 m) (λ me. put_entry i (count_up inc me) (with_tlb r.1 m)),
            )
          ])
      after (none, t) g = with_tlb-Kept t m g p
      after (some i, t) (range, every) =
          let k = with_tlb-Kept t m every p in
          let s = found_range h addr size i (with_tlb t m) range in
          let n = counted inc s.slot.entry in
          subst (λ (m2 : HomeManager). Kept m m2 × ((i : ℕ) × InSegment h addr size i m2))
            (sym (
              with_entry-at i s.slot (with_tlb t m)
                (λ me. put_entry i (count_up inc me) (with_tlb t m)) s.at
              ∙ put_entry-at i s.slot (count_up inc s.slot.entry) (with_tlb t m) s.at
              ∙ ap (λ me. wrote i s.slot me (with_tlb t m)) (count-eq inc s.slot.entry)))
            (
              recounted-Kept i s.slot n m (with_tlb t m) s.at s.allocated
                  (counted-IsNatural h inc s.slot.entry
                    (k.same.pending.slots i s.slot s.at).counted)
                  (counted-kept h inc s.slot.entry) k,
              (
                i,
                record {
                  slot = record s.slot { entry = recounted h s.slot.entry n };
                  at =
                      get_elem?-set_self m.cs.entries i _ (get_elem?-lt m.cs.entries i s.slot s.at);
                  allocated = s.allocated;
                  low = s.low;
                  high = s.high;
                },
              ),
            )

  count_down-Same :
      (i : ℕ) (ce : Slot) (m : HomeManager)
      → get_elem? m.cs.entries i ≡ some ce
      → ce.allocated ≡ true
      → IsPositive ce.entry.ref_count
      → IsPending h m
      → Same m (with_entry i m (λ me. put_entry i (count_down me) m))
  count_down-Same i ce m at al positive p =
      subst (Same m)
        (sym (
          with_entry-at i ce m (λ me. put_entry i (count_down me) m) at
          ∙ put_entry-at i ce (count_down ce.entry) m at))
        (record {
          pending =
              recounted-IsPending h i ce (decrement ce.entry.ref_count) m at al
                (decrement-IsNatural ce.entry.ref_count positive) p;
          same_list = refl;
        })

  -- The slot has a positive count.
  abbrev pub Referred : HomeManager → ℕ → Type 0
  Referred m i = (ce : Slot) → get_elem? m.cs.entries i ≡ some ce → IsPositive ce.entry.ref_count

  -- The slot that the tlb gives for the range has, if it gives one.
  abbrev pub FastReferred : ℕ → ℕ → HomeManager → Type 0
  FastReferred addr size m =
      (i : ℕ) → (Tlb.get (has_range addr size) m.cs.outer).0 ≡ some i → Referred m i

  pub checkin_fast-Same :
      (dec : Bool) (addr size : ℕ) (m : HomeManager)
      → (dec ≡ true → FastReferred addr size m)
      → IsPending h m
      → Same m (checkin_fast block_size true dec addr size m).1
  unfolding checkin_fast
  checkin_fast-Same false addr size m referred p = record { pending = p; same_list = refl }
  checkin_fast-Same true addr size m referred p =
      after (Tlb.get (has_range addr size) m.cs.outer) (referred refl)
        (get-Got (SlotFor h m.cs.entries) (has_range addr size) m.cs.outer p.tlb)
    where
      after :
          (r : Option ℕ × Tlb Span ℕ)
          → ((i : ℕ) → r.0 ≡ some i → Referred m i)
          → Got (SlotFor h m.cs.entries) (has_range addr size) r
          → let out : Bool × HomeManager = elim r.0 [
            | none ↦ (false, with_tlb r.1 m)
            | some i ↦ (
              true,
              with_entry i (with_tlb r.1 m) (λ me. put_entry i (count_down me) (with_tlb r.1 m)),
            )
          ] in
            Same m out.1
      after (none, t) q g = (with_tlb-Kept t m g p).same
      after (some i, t) q (range, every) =
          let k = (with_tlb-Kept t m every p).same in
          let s = found_range h addr size i (with_tlb t m) range in
          let d =
            count_down-Same i s.slot (with_tlb t m) s.at s.allocated (q i refl s.slot s.at)
              k.pending in
          record { pending = d.pending; same_list = d.same_list }

  abbrev pub CheckedIn : HomeManager → Option HomeManager → Type 0
  CheckedIn m none = ⊥
  CheckedIn m (some m1) = Same m m1

  -- The checkin of a cached segment.
  pub checkin_seg-CheckedIn :
      (dec : Bool) (a i : ℕ) (m : HomeManager)
      → find (a / block_size) m.cs.table ≡ some i
      → (dec ≡ true → Referred m i)
      → IsPending h m
      → CheckedIn m (checkin_seg block_size true dec a m)
  unfolding checkin_seg get_entry
  checkin_seg-CheckedIn false a i m f referred p = record { pending = p; same_list = refl }
  checkin_seg-CheckedIn true a i m f referred p =
      served (ensure_cached false (a / block_size) m.cs)
        (ensure_cached-Cached false (a / block_size) m.cs p.inv)
        (ensure_cached-Served false (a / block_size) m.cs)
    where
      counted_down :
          (j : ℕ) (cs' : CacheSystem mmap_entry)
          → IsPending h (record m { cs = cs' })
          → Referred (record m { cs = cs' }) j
          → HasKey (a / block_size) (get_elem? cs'.entries j)
          → Same m (
              with_entry j
                (record m { cs = cs' })
                (λ me. put_entry j (count_down me) (record m { cs = cs' })))
      counted_down j cs' p' q hk =
          let (ce, at, al, key) = key_slot h (a / block_size) j cs'.entries hk in
          let d = count_down-Same j ce (record m { cs = cs' }) at al (q ce at) p' in
          record { pending = d.pending; same_list = d.same_list }

      served :
          (r : Result (ℕ × CacheSystem mmap_entry))
          → Cached (a / block_size) r
          → Served (a / block_size) m.cs r
          → let got : Option (ℕ × HomeManager) = elim r [
            | ok (j, cs') ↦ some (j, record m { cs = cs' })
            | cache_full ↦ none
          ] in
            CheckedIn m (elim got [
              | none ↦ none
              | some (j, m1) ↦ some (with_entry j m1 (λ me. put_entry j (count_down me) m1))
            ])
      served cache_full c (missing, busy) = absurd (none-ne-some i (sym missing ∙ f))
      served (ok (j, cs')) (v, found, hk) (inl hit) =
          counted_down j cs' (Hit-Pending h m.home_segments_to_map (a / block_size) j m cs' p v hit)
            (λ ce at. referred refl ce (
              ap (get_elem? m.cs.entries) (some-injective i j (sym f ∙ hit.found))
              ∙ ap (λ es. get_elem? es j) (sym hit.same_entries)
              ∙ at))
            hk
      served (ok (j, cs')) (v, found, hk) (inr t) = absurd (none-ne-some i (sym t.absent ∙ f))
