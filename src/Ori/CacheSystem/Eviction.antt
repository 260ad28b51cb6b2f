-- ===== src/Ori/CacheSystem/Eviction.antt =====
-- What `ensure_cached` and `ensure_evicted` do to the keys.
use itoyori.Prelude.{
  ℕ, zero, suc, ◌<◌, ◌≡◌, ◌≢◌, ◌↔◌, refl, ap, inl, inr, Bool, true, false, not, ◌&&◌, List, [], ◌∷◌,
  Option, none, some, arith, get_elem?, set, Bool-cases, Option-cases, length, if◌then◌else◌, ◌==◌,
  get_elem?-set_self, get_elem?-set_ne, ◌∙◌,
}
use itoyori.Ori.CacheSystem.{
  Entry, CacheEntry, CacheSystem, Result, ok, cache_full, find, erase, slot_in, get_empty_slot,
  evict_at, map_slot, touch, ensure_cached, ensure_evicted,
}
use itoyori.Ori.CacheSystem.Maps.{find-erase, find-assign}
use itoyori.Ori.CacheSystem.Slots.{busy, AllBusy, Freed, Searched, get_empty_slot-Searched}
use itoyori.Ori.CacheSystem.Invariant.{
  HasKey, Backed, Inv, evict_at-Inv, touch-Inv, map_slot-Inv, map_slot-eq, key-listed, get_elem?-lt,
  free-Backed, free-Listed, lru_kept,
}

module _ {C : Entry} where
  open C use {E, Outer, is_evictable, on_evict, on_cache_map}

  -- The cache with the slot given, ready for the key.
  record Ready (key idx : ℕ) (cs' : CacheSystem C) : Type 0 where
    inv : Inv cs'
    absent : find key cs'.table ≡ none
    slot : CacheEntry C
    at : get_elem? cs'.entries idx ≡ some slot
    is_free : slot.allocated ≡ false

  Freed-Ready :
      (key idx : ℕ) (cs cs' : CacheSystem C)
      → Inv cs
      → find key cs.table ≡ none
      → Freed cs idx cs'
      → Ready key idx cs'
  unfolding evict_at
  Freed-Ready key idx cs cs' v absent (ce, at, inl (f, e)) =
      rw e (record { inv = v; absent = absent; slot = ce; at = at; is_free = f })
  Freed-Ready key idx cs cs' v absent (ce, at, inr (a, ev, e)) = rw e (record {
    inv = evict_at-Inv cs idx ce at a v;
    absent = ground (arith, find-erase key ce.key cs.table, absent);
    slot = record ce { entry = (on_evict ce.entry cs.outer).0; allocated = false };
    at = get_elem?-set_self cs.entries idx _ (get_elem?-lt cs.entries idx ce at);
    is_free = refl;
  })

  -- The ways in which `ensure_cached` ends.
  pub ensure_cached-cases {ℓ} :
      (P : Result (ℕ × CacheSystem C) → Type ℓ) (u : Bool) (key : ℕ) (cs : CacheSystem C)
      → ((idx : ℕ) → find key cs.table ≡ some idx → P (ok (idx, touch u idx cs)))
      → (find key cs.table ≡ none → AllBusy cs cs.lru → P cache_full)
      → ((idx : ℕ) (cs' : CacheSystem C)
          → find key cs.table ≡ none
          → Freed cs idx cs'
          → P (ok (idx, touch u idx (map_slot key idx cs'))))
      → P (ensure_cached u key cs)
  unfolding ensure_cached
  ensure_cached-cases P u key cs hit full miss = elim (Option-cases (find key cs.table)) [
    | inr (idx, q) ↦ rw (q, ensure_cached) (hit idx q)
    | inl q ↦ rw (q, ensure_cached) (go (get_empty_slot cs) (get_empty_slot-Searched cs) q)
  ]
    where
      go :
          (r : Result (ℕ × CacheSystem C))
          → Searched cs cs.lru r
          → find key cs.table ≡ none
          → P (elim r [
            | cache_full ↦ cache_full
            | ok (idx, cs') ↦ ok (idx, touch u idx (map_slot key idx cs'))
          ])
      go cache_full s q = full q s
      go (ok (idx, cs')) s q = miss idx cs' q s.4

  abbrev pub Cached : ℕ → Result (ℕ × CacheSystem C) → Type 0
  Cached key cache_full = Unit {0}
  Cached key (ok (idx, cs')) =
      Inv cs' × (find key cs'.table ≡ some idx) × HasKey key (get_elem? cs'.entries idx)

  touch-table :
      (u : Bool) (idx : ℕ) (cs : CacheSystem C)
      → ((touch u idx cs).table ≡ cs.table) × ((touch u idx cs).entries ≡ cs.entries)
  unfolding touch
  touch-table true idx cs = (refl, refl)
  touch-table false idx cs = (refl, refl)

  HasKey-lt : (k i : ℕ) (es : List (CacheEntry C)) → HasKey k (get_elem? es i) → i < length es
  HasKey-lt k i [] h = absurd h
  HasKey-lt k zero (e ∷ es) h = omega arith
  HasKey-lt k (suc i) (e ∷ es) h = omega (arith, HasKey-lt k i es h)

  found-HasKey :
      (key idx : ℕ) (cs : CacheSystem C)
      → Inv cs
      → find key cs.table ≡ some idx
      → HasKey key (get_elem? cs.entries idx)
  found-HasKey key idx cs v q =
      let b : Backed cs.entries key (some idx) = rw q at (v.backed key) in b

  touch-Cached :
      (u : Bool) (key idx : ℕ) (cs : CacheSystem C)
      → Inv cs
      → find key cs.table ≡ some idx
      → Cached key (ok (idx, touch u idx cs))
  touch-Cached u key idx cs v q =
      let k = found-HasKey key idx cs v q in
      let t = touch-table u idx cs in
      (touch-Inv u idx cs (HasKey-lt key idx cs.entries k) v, rw t.0 q, rw t.1 k)

  map-found :
      (key idx : ℕ) (cs : CacheSystem C)
      → Ready key idx cs
      → find key (map_slot key idx cs).table ≡ some idx
  map-found key idx cs r =
      rw (map_slot-eq cs key idx r.slot r.at r.is_free r.absent r.inv)
        (ground (arith, find-assign key key idx cs.table))

  -- On a well-formed cache, ensure_cached leaves a well-formed cache, and unless it throws the
  -- key is then in the table for the returned slot, which is allocated and holds it.
  pub ensure_cached-Cached :
      (u : Bool) (key : ℕ) (cs : CacheSystem C) → Inv cs → Cached key (ensure_cached u key cs)
  ensure_cached-Cached u key cs v =
      ensure_cached-cases (Cached key) u key cs (λ idx q. touch-Cached u key idx cs v q) (λ q b. tt)
        (λ idx cs' q f.
          let r = Freed-Ready key idx cs cs' v q f in
          touch-Cached u key idx (map_slot key idx cs')
            (map_slot-Inv cs' key idx r.slot r.at r.is_free r.absent r.inv)
            (map-found key idx cs' r))

  AllBusy-full : (cs : CacheSystem C) (l : List ℕ) → AllBusy cs l → slot_in l cs ≡ cache_full
  unfolding slot_in
  AllBusy-full cs [] b = refl
  AllBusy-full cs (i ∷ l) b = elim (Option-cases (get_elem? cs.entries i)) [
    | inl q ↦ rw (q, slot_in) (AllBusy-full cs l b.1)
    | inr (ce, q) ↦
        let h : (ce.allocated && not (is_evictable ce.entry cs.outer)) ≡ true =
          rw (q, busy) at b.0 in
        let a : ce.allocated ≡ true = ground (arith, h) in
        let e : is_evictable ce.entry cs.outer ≡ false = ground (arith, h) in
        rw (q, slot_in) (rw (a, slot_in) (rw (e, slot_in) (AllBusy-full cs l b.1)))
  ]

  -- ensure_cached throws exactly if the key is not cached and every slot of the LRU list is
  -- allocated and unevictable (or out of the vector).
  pub ensure_cached-full_iff :
      (u : Bool) (key : ℕ) (cs : CacheSystem C)
      → (ensure_cached u key cs ≡ cache_full) ↔ ((find key cs.table ≡ none) × AllBusy cs cs.lru)
  unfolding ensure_cached get_empty_slot
  ensure_cached-full_iff u key cs = (
    ensure_cached-cases (λ r. r ≡ cache_full → (find key cs.table ≡ none) × AllBusy cs cs.lru) u key
        cs (λ idx q e. cc) (λ q b e. (q, b)) (λ idx cs' q f e. cc),
    λ h. rw (h.0, ensure_cached) (rw (AllBusy-full cs cs.lru h.1, get_empty_slot)),
  )

  -- The key is cached at the slot with the entry.
  abbrev pub Holds : ℕ → ℕ → CacheEntry C → CacheSystem C → Type 0
  Holds k i ce cs = (find k cs.table ≡ some i) × (get_elem? cs.entries i ≡ some ce)

  touch-Holds :
      (u : Bool) (idx k i : ℕ) (ce : CacheEntry C) (cs : CacheSystem C)
      → Holds k i ce cs
      → Holds k i ce (touch u idx cs)
  touch-Holds u idx k i ce cs h = let t = touch-table u idx cs in (rw t.0 h.0, rw t.1 h.1)

  abbrev pub StillHolds : ℕ → ℕ → CacheEntry C → Result (ℕ × CacheSystem C) → Type 0
  StillHolds k i ce cache_full = Unit {0}
  StillHolds k i ce (ok (idx, cs')) = Holds k i ce cs'

  module _ (k i : ℕ) (pinned : CacheEntry C) where
    Freed-Holds :
        (idx : ℕ) (cs cs' : CacheSystem C)
        → Inv cs
        → Holds k i pinned cs
        → is_evictable pinned.entry cs.outer ≡ false
        → Freed cs idx cs'
        → Holds k i pinned cs' × (idx ≢ i)
    unfolding evict_at
    Freed-Holds idx cs cs' v h not_evictable (ce, at, inl (f, e)) = rw e (h, apart)
      where
        apart : idx ≢ i
        apart same =
            let k' : HasKey k (some ce) = rw (← same, at) at (found-HasKey k i cs v h.0) in
            absurd (ground (arith, k'.0, f))
    Freed-Holds idx cs cs' v h not_evictable (ce, at, inr (a, ev, e)) = rw e (
      (
        ground (arith, find-erase k ce.key cs.table, other_key, h.0),
        get_elem?-set_ne cs.entries _ apart ∙ h.1,
      ),
      apart,
    )
      where
        apart : idx ≢ i
        apart same =
            let p : pinned ≡ ce = ground (arith, rw (← same, at) at h.1) in
            absurd (
              ground (
                arith,
                ap (λ (c : CacheEntry C). is_evictable c.entry cs.outer) p,
                ev,
                not_evictable,
              ))

        other_key : ce.key ≢ k
        other_key same = apart (
            ground (
              arith,
              rw same at (key-listed cs idx ce (record ce { allocated = false }) at a v refl),
              h.0,
            ))

    map-Holds :
        (key idx : ℕ) (cs : CacheSystem C)
        → Ready key idx cs
        → idx ≢ i
        → Holds k i pinned cs
        → Holds k i pinned (map_slot key idx cs)
    map-Holds key idx cs r apart h =
        rw (map_slot-eq cs key idx r.slot r.at r.is_free r.absent r.inv) (
          ground (arith, find-assign k key idx cs.table, h.0, r.absent),
          get_elem?-set_ne cs.entries _ apart ∙ h.1,
        )

    -- On a well-formed cache, an entry that is not evictable stays under its key, in its slot and
    -- unchanged when ensure_cached succeeds on any key.
    pub ensure_cached-StillHolds :
        (u : Bool) (key : ℕ) (cs : CacheSystem C)
        → Inv cs
        → Holds k i pinned cs
        → is_evictable pinned.entry cs.outer ≡ false
        → StillHolds k i pinned (ensure_cached u key cs)
    ensure_cached-StillHolds u key cs v h not_evictable =
        ensure_cached-cases (StillHolds k i pinned) u key cs
          (λ idx q. touch-Holds u idx k i pinned cs h) (λ q b. tt)
          (λ idx cs' q f.
            let s = Freed-Holds idx cs cs' v h not_evictable f in
            touch-Holds u idx k i pinned _
              (map-Holds key idx cs' (Freed-Ready key idx cs cs' v q f) s.1 s.0))

  abbrev pub Uncached : ℕ → CacheSystem C → Option (CacheSystem C) → Type 0
  Uncached key cs none =
      (i : ℕ) × (ce : CacheEntry C) × Holds key i ce cs × (is_evictable ce.entry cs.outer ≡ false)
  Uncached key cs (some cs') =
      Inv cs' × ((j : ℕ) → find j cs'.table ≡ (if key == j then none else find j cs.table))

  -- On a well-formed cache, ensure_evicted fails its check only at a cached entry that is not
  -- evictable; otherwise the cache stays well formed, the key is gone and every other key is
  -- where it was.
  pub ensure_evicted-Uncached :
      (key : ℕ) (cs : CacheSystem C) → Inv cs → Uncached key cs (ensure_evicted key cs)
  unfolding ensure_evicted
  ensure_evicted-Uncached key cs v = elim (Option-cases (find key cs.table)) [
    | inl q ↦ rw (q, ensure_evicted) (v, absent q)
    | inr (idx, q) ↦
        rw (q, ensure_evicted)
          (elim (Option-cases (get_elem? cs.entries idx)) [
            | inl r ↦
                absurd
                  (let k : HasKey {C = C} key none = rw r at (found-HasKey key idx cs v q) in k)
            | inr (ce, r) ↦
                rw (r, ensure_evicted)
                  (elim (Bool-cases (is_evictable ce.entry cs.outer)) [
                    | inr e ↦ rw e (idx, ce, (q, r), e)
                    | inl e ↦ rw e (evicted idx ce r (rw r at (found-HasKey key idx cs v q)))
                  ])
          ])
  ]
    where
      absent :
          find key cs.table ≡ none
          → (j : ℕ) → find j cs.table ≡ (if key == j then none else find j cs.table)
      absent q j = elim (Bool-cases (key == j)) [
        | inl e ↦ let e' : key ≡ j = ground arith in rw e (rw (← e') q)
        | inr e ↦ rw e
      ]

      evicted :
          (idx : ℕ) (ce : CacheEntry C)
          → get_elem? cs.entries idx ≡ some ce
          → HasKey key (some ce)
          → let reset : CacheEntry C = record {
            allocated = false;
            key = 0;
            entry = cs.entry_initial_state;
          } in
            Uncached key cs (
              some (record cs {
                entries = set cs.entries idx reset;
                table = erase key cs.table;
                outer = (on_evict ce.entry cs.outer).1;
              }))
      evicted idx ce r k =
          let reset : CacheEntry C = record {
            allocated = false;
            key = 0;
            entry = cs.entry_initial_state;
          } in
          (
            record {
              backed = rw k.1 at (free-Backed cs idx ce reset r k.0 v refl);
              listed = rw k.1 at (free-Listed cs idx ce reset r k.0 v refl);
              lru_once = lru_kept cs idx ce reset r k.0 v refl;
            },
            λ j. find-erase j key cs.table,
          )
