-- ===== src/Ori/HomeManager/Checkouts.antt =====
-- include/ityr/ori/home_manager.hpp: what each operation does to a manager with segments that wait.
use itoyori.Prelude.{
  ℤ, IsNatural, ℕ, ◌+◌, ◌/◌, ◌≤◌, ◌≡◌, refl, sym, subst, inl, inr, Bool, true, some, arith,
  get_elem?,
}
use itoyori.Ori.CacheSystem.{CacheSystem, Result, ok, cache_full, ensure_cached}
use itoyori.Ori.CacheSystem.Eviction.{Cached, ensure_cached-Cached}
use itoyori.Ori.CacheSystem.Served.{Served, ensure_cached-Served}
use itoyori.Ori.HomeManager.{HomeManager, MmapEntry, mmap_entry, Span, has_range, checkout_seg}
use itoyori.Ori.HomeManager.Backing.{HomeSegments}
use itoyori.Ori.HomeManager.Writes.{Slot, wrote}
use itoyori.Ori.HomeManager.Slots.{checkout_seg-full}
use itoyori.Ori.HomeManager.Pending.{SlotFor}
use itoyori.Ori.HomeManager.Rewrites.{wrote-Pending}
use itoyori.Ori.HomeManager.Completed.{IsPending}
use itoyori.Ori.HomeManager.Requests.{Pinned, Outcome}
use itoyori.Ori.HomeManager.Hits.{Hit-Outcome}
use itoyori.Ori.HomeManager.Takes.{Taken-Outcome}

module _ {block_size : ℕ} (h : HomeSegments block_size) where
  open h use {IsSegment, size_of, pm_of, offset_of}

  pub checkout_seg-Outcome :
      (inc : Bool) (a : ℕ) (m : HomeManager)
      → IsSegment a
      → IsPending h m
      → Pinned h m
      → Outcome h inc a m (checkout_seg block_size true inc a (size_of a) (pm_of a) (offset_of a) m)
  checkout_seg-Outcome inc a m ia p pin =
      served (ensure_cached true (a / block_size) m.cs) refl
        (ensure_cached-Cached true (a / block_size) m.cs p.inv)
        (ensure_cached-Served true (a / block_size) m.cs)
    where
      served :
          (r : Result (ℕ × CacheSystem mmap_entry))
          → ensure_cached true (a / block_size) m.cs ≡ r
          → Cached (a / block_size) r
          → Served (a / block_size) m.cs r
          → Outcome h inc a m
              (checkout_seg block_size true inc a (size_of a) (pm_of a) (offset_of a) m)
      served cache_full e c s =
          subst (Outcome h inc a m)
            (sym (checkout_seg-full inc a (size_of a) (pm_of a) (offset_of a) 0 block_size m e)) s
      served (ok (i, cs')) e (v, found, hk) (inl hit) =
          Hit-Outcome h inc a ia m p pin i cs' e v found hit hk
      served (ok (i, cs')) e (v, found, hk) (inr t) =
          Taken-Outcome h inc a ia m p pin i cs' e v found t

  -- Another count of an entry.
  abbrev pub recounted : MmapEntry → ℤ → MmapEntry
  recounted me n = record me { ref_count = n }

  pub recounted-IsPending :
      (i : ℕ) (ce : Slot) (n : ℤ) (m : HomeManager)
      → get_elem? m.cs.entries i ≡ some ce
      → ce.allocated ≡ true
      → IsNatural n
      → IsPending h m
      → IsPending h (wrote i ce (recounted ce.entry n) m)
  recounted-IsPending i ce n m at al natural p =
      let f = (p.slots i ce at).used al in
      wrote-Pending h m.home_segments_to_map m p i ce at al (recounted ce.entry n)
        (record { addr = refl; mapped_addr = refl; mapped_size = refl; counted = natural })
        (record {
          is_segment = f.is_segment;
          keyed = f.keyed;
          sized = f.sized;
          in_pm = f.in_pm;
          at_offset = f.at_offset;
        })

  -- What a lookup in the tlb finds is a slot for a segment that has the range.
  pub record InSegment (addr size i : ℕ) (m : HomeManager) : Type 0 where
    pub slot : Slot
    pub at : get_elem? m.cs.entries i ≡ some slot
    pub allocated : slot.allocated ≡ true
    pub low : slot.entry.addr ≤ addr
    pub high : addr + size ≤ slot.entry.addr + size_of slot.entry.addr

  pub found_range :
      (addr size i : ℕ) (m : HomeManager)
      → ((s : Span) × (has_range addr size s ≡ true) × SlotFor h m.cs.entries s i)
      → InSegment addr size i m
  unfolding SlotFor
  found_range addr size i m (s, inside, (ce, at, al, there, sized)) = record {
    slot = ce;
    at = at;
    allocated = al;
    low = subst (λ a. a ≤ addr) (sym there) (ground (arith, inside));
    high = subst (λ a. addr + size ≤ a + size_of a) (sym there) (ground (arith, inside, sized));
  }
