-- ===== src/Ori/CacheSystem/Served.antt =====
-- include/ityr/ori/cache_system.hpp: the slot that `ensure_cached` gives and what it had before.
use itoyori.Prelude.{
  ℕ, ◌≡◌, ◌≢◌, refl, ap, inl, inr, ◌⊎◌, Bool, true, false, none, some, get_elem?, set,
  get_elem?-set_self, get_elem?-set_ne, ◌∙◌,
}
use itoyori.Ori.CacheSystem.{
  Entry, CacheEntry, CacheSystem, Result, ok, cache_full, find, evict_at, map_slot, touch,
  ensure_cached,
}
use itoyori.Ori.CacheSystem.Slots.{AllBusy, Freed}
use itoyori.Ori.CacheSystem.Invariant.{get_elem?-lt}
use itoyori.Ori.CacheSystem.Eviction.{ensure_cached-cases}

module _ {C : Entry} where
  open C use {E, Outer, is_evictable, on_evict, on_cache_map}

  -- A slot with what it had, and the entry and the outer state that it is mapped with.
  pub record Taken (key idx : ℕ) (cs cs' : CacheSystem C) : Type 0 where
    pub absent : find key cs.table ≡ none
    pub old : CacheEntry C
    pub at : get_elem? cs.entries idx ≡ some old
    pub entry : E
    pub now :
        get_elem? cs'.entries idx
        ≡ some (record { allocated = true; key = key; entry = on_cache_map idx entry })
    pub elsewhere : (j : ℕ) → idx ≢ j → get_elem? cs'.entries j ≡ get_elem? cs.entries j
    pub from :
        ((old.allocated ≡ false) × (entry ≡ old.entry) × (cs'.outer ≡ cs.outer))
        ⊎ ((old.allocated ≡ true)
            × (is_evictable old.entry cs.outer ≡ true)
            × (entry ≡ (on_evict old.entry cs.outer).0)
            × (cs'.outer ≡ (on_evict old.entry cs.outer).1))

  pub record Hit (key idx : ℕ) (cs cs' : CacheSystem C) : Type 0 where
    pub found : find key cs.table ≡ some idx
    pub same_entries : cs'.entries ≡ cs.entries
    pub same_outer : cs'.outer ≡ cs.outer

  abbrev pub Served : ℕ → CacheSystem C → Result (ℕ × CacheSystem C) → Type 0
  Served key cs cache_full = (find key cs.table ≡ none) × AllBusy cs cs.lru
  Served key cs (ok (idx, cs')) = Hit key idx cs cs' ⊎ Taken key idx cs cs'

  touch-kept :
      (u : Bool) (idx : ℕ) (cs : CacheSystem C)
      → ((touch u idx cs).entries ≡ cs.entries) × ((touch u idx cs).outer ≡ cs.outer)
  unfolding touch
  touch-kept true idx cs = (refl, refl)
  touch-kept false idx cs = (refl, refl)

  map_slot-at :
      (key idx : ℕ) (cs : CacheSystem C) (ce : CacheEntry C)
      → get_elem? cs.entries idx ≡ some ce
      → ((map_slot key idx cs).entries
          ≡ set cs.entries idx
              (record { allocated = true; key = key; entry = on_cache_map idx ce.entry }))
        × ((map_slot key idx cs).outer ≡ cs.outer)
  unfolding map_slot
  map_slot-at key idx cs ce at = rw (at, map_slot) (refl, refl)

  -- The entries and the outer state after a slot was given, mapped and touched.
  taken_entries :
      (u : Bool) (key idx : ℕ) (cs : CacheSystem C) (ce : CacheEntry C)
      → get_elem? cs.entries idx ≡ some ce
      → ((touch u idx (map_slot key idx cs)).entries
          ≡ set cs.entries idx
              (record { allocated = true; key = key; entry = on_cache_map idx ce.entry }))
        × ((touch u idx (map_slot key idx cs)).outer ≡ cs.outer)
  taken_entries u key idx cs ce at =
      let t = touch-kept u idx (map_slot key idx cs) in
      let m = map_slot-at key idx cs ce at in (t.0 ∙ m.0, t.1 ∙ m.1)

  Freed-Taken :
      (u : Bool) (key idx : ℕ) (cs cs' : CacheSystem C)
      → find key cs.table ≡ none
      → Freed cs idx cs'
      → Taken key idx cs (touch u idx (map_slot key idx cs'))
  unfolding evict_at
  Freed-Taken u key idx cs cs' absent (ce, at, inl (f, e)) = rw e (
      let t = taken_entries u key idx cs ce at in
      record {
        absent = absent;
        old = ce;
        at = at;
        entry = ce.entry;
        now =
            ap (λ es. get_elem? es idx) t.0
            ∙ get_elem?-set_self cs.entries idx _ (get_elem?-lt cs.entries idx ce at);
        elsewhere = λ j ne. ap (λ es. get_elem? es j) t.0 ∙ get_elem?-set_ne cs.entries _ ne;
        from = inl (f, refl, t.1);
      })
  Freed-Taken u key idx cs cs' absent (ce, at, inr (a, ev, e)) = rw e (
      let freed : CacheEntry C = record ce {
        entry = (on_evict ce.entry cs.outer).0;
        allocated = false;
      } in
      let lt = get_elem?-lt cs.entries idx ce at in
      let self = get_elem?-set_self cs.entries idx freed lt in
      let t = taken_entries u key idx (evict_at idx ce cs) freed self in
      record {
        absent = absent;
        old = ce;
        at = at;
        entry = (on_evict ce.entry cs.outer).0;
        now =
            ap (λ es. get_elem? es idx) t.0
            ∙ get_elem?-set_self (set cs.entries idx freed) idx _
                (get_elem?-lt (set cs.entries idx freed) idx freed self);
        elsewhere = λ j ne.
            ap (λ es. get_elem? es j) t.0
            ∙ get_elem?-set_ne (set cs.entries idx freed) _ ne
            ∙ get_elem?-set_ne cs.entries _ ne;
        from = inr (a, ev, refl, t.1);
      })

  -- `ensure_cached` gives the slot of the key as it is, or one that was free or evictable, or throws.
  pub ensure_cached-Served :
      (u : Bool) (key : ℕ) (cs : CacheSystem C) → Served key cs (ensure_cached u key cs)
  ensure_cached-Served u key cs =
      ensure_cached-cases (Served key cs) u key cs
        (λ idx q.
          let t = touch-kept u idx cs in
          inl (record { found = q; same_entries = t.0; same_outer = t.1 }))
        (λ q b. (q, b)) (λ idx cs' q f. inr (Freed-Taken u key idx cs cs' q f))
