-- ===== src/Ori/CacheSystem/Slots.antt =====
-- Which slot `get_empty_slot` gives: the least recently used one that is free or evictable.
use itoyori.Prelude.{
  ℕ, ◌≡◌, refl, ap, ◌⊎◌, inl, inr, Bool, true, false, not, ◌&&◌, List, [], ◌∷◌, ◌++◌, none, some,
  arith, get_elem?, Bool-cases, Option-cases,
}
use itoyori.Ori.CacheSystem.{
  Entry, CacheEntry, CacheSystem, Result, ok, cache_full, slot_in, get_empty_slot, evict_at,
}

module _ {C : Entry} where
  open C use {is_evictable}

  -- The entry at the index is allocated and not evictable.
  abbrev pub busy : CacheSystem C → ℕ → Bool
  busy cs i = elim (get_elem? cs.entries i) [
    | none ↦ true
    | some ce ↦ ce.allocated && not (is_evictable ce.entry cs.outer)
  ]

  abbrev pub AllBusy : CacheSystem C → List ℕ → Type 0
  AllBusy cs [] = Unit {0}
  AllBusy cs (i ∷ l) = (busy cs i ≡ true) × AllBusy cs l

  -- What becomes of the cache where a slot is given.
  abbrev pub Freed : CacheSystem C → ℕ → CacheSystem C → Type 0
  Freed cs idx cs' =
      (ce : CacheEntry C) × (get_elem? cs.entries idx ≡ some ce)
      × (((ce.allocated ≡ false) × (cs' ≡ cs))
          ⊎ ((ce.allocated ≡ true)
              × (is_evictable ce.entry cs.outer ≡ true)
              × (cs' ≡ evict_at idx ce cs)))

  -- Either every entry of the list is busy, or the slot given is the first that is not.
  abbrev pub Searched : CacheSystem C → List ℕ → Result (ℕ × CacheSystem C) → Type 0
  Searched cs l cache_full = AllBusy cs l
  Searched cs l (ok (idx, cs')) =
      (before : List ℕ) × (after : List ℕ) × (l ≡ before ++ (idx ∷ after))
      × AllBusy cs before
      × Freed cs idx cs'

  Searched-cons :
      (cs : CacheSystem C) (i : ℕ) (l : List ℕ) (r : Result (ℕ × CacheSystem C))
      → busy cs i ≡ true
      → Searched cs l r
      → Searched cs (i ∷ l) r
  Searched-cons cs i l cache_full b s = (b, s)
  Searched-cons cs i l (ok (idx, cs')) b s = (i ∷ s.0, s.1, ap (◌∷◌ i) s.2, (b, s.3), s.4)

  pub slot_in-Searched : (cs : CacheSystem C) (l : List ℕ) → Searched cs l (slot_in l cs)
  unfolding slot_in
  slot_in-Searched cs [] = tt
  slot_in-Searched cs (i ∷ l) = elim (Option-cases (get_elem? cs.entries i)) [
    | inl q ↦
        rw (q, slot_in) (Searched-cons cs i l (slot_in l cs) (rw (q, busy)) (slot_in-Searched cs l))
    | inr (ce, q) ↦
        rw (q, slot_in)
          (elim (Bool-cases ce.allocated) [
            | inl a ↦
                rw (a, slot_in)
                  (elim (Bool-cases (is_evictable ce.entry cs.outer)) [
                    | inl e ↦ rw (e, slot_in) ([], l, refl, tt, (ce, q, inr (a, e, refl)))
                    | inr e ↦
                        rw (e, slot_in)
                          (Searched-cons cs i l (slot_in l cs) (rw (q, busy) (ground (arith, a, e)))
                            (slot_in-Searched cs l))
                  ])
            | inr a ↦ rw (a, slot_in) ([], l, refl, tt, (ce, q, inl (a, refl)))
          ])
  ]

  -- get_empty_slot gives the first slot of the LRU list whose entry is not both allocated and
  -- unevictable, unchanged if it was free and evicted otherwise, and throws only if there is
  -- none.
  pub get_empty_slot-Searched : (cs : CacheSystem C) → Searched cs cs.lru (get_empty_slot cs)
  unfolding get_empty_slot
  get_empty_slot-Searched cs = slot_in-Searched cs cs.lru
