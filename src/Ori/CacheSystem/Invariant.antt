-- ===== src/Ori/CacheSystem/Invariant.antt =====
-- The table and the entries agree, and the LRU list has each index once.
use itoyori.Prelude.{
  ℕ, zero, suc, ◌<◌, ◌≡◌, ◌≢◌, refl, ap, inl, inr, Bool, true, false, List, [], ◌∷◌, Option, none,
  some, arith, get_elem?, set, Bool-cases, length, length-set, if◌then◌else◌, ltb, ◌==◌,
  get_elem?-set_self, get_elem?-set_ne, ◌∙◌,
}
use native.Mathlib.Decide.{ℕ_discrete}
use itoyori.Ori.CacheSystem.{
  Entry, CacheEntry, CacheSystem, find, erase, assign, evict_at, map_slot, touch, init, blank,
}
use itoyori.Ori.CacheSystem.Maps.{
  find-erase, find-assign, occurs, occurs-move_to_back, occurs-range_from,
}

abbrev pub ListedAs : List (ℕ × ℕ) → ℕ → ℕ → Bool → Type 0
ListedAs table i k true = find k table ≡ some i
ListedAs table i k false = Unit {0}

-- A write in range, at the index and elsewhere.
pub set-at {ℓ} :
    {A : Type ℓ} (P : Option A → Type ℓ) (xs : List A) (i j : ℕ) (x : A)
    → i < length xs
    → (i ≡ j → P (some x))
    → (i ≢ j → P (get_elem? xs j))
    → P (get_elem? (set xs i x) j)
set-at P xs i j x h same other = elim (ℕ_discrete i j) [
  | yes e ↦ rw (← e, get_elem?-set_self xs i x h) (same e)
  | no e ↦ rw (get_elem?-set_ne xs x e) (other e)
]

module _ {C : Entry} where
  open C use {E, Outer, is_evictable, on_evict, on_cache_map}

  -- The slot holds the key.
  abbrev pub HasKey : ℕ → Option (CacheEntry C) → Type 0
  HasKey k none = ⊥
  HasKey k (some ce) = (ce.allocated ≡ true) × (ce.key ≡ k)

  -- A key of the table is that of the slot that the table gives for it.
  abbrev pub Backed : List (CacheEntry C) → ℕ → Option ℕ → Type 0
  Backed es k none = Unit {0}
  Backed es k (some i) = HasKey k (get_elem? es i)

  -- The table gives an allocated slot for its key.
  abbrev pub Listed : List (ℕ × ℕ) → ℕ → Option (CacheEntry C) → Type 0
  Listed table i none = Unit {0}
  Listed table i (some ce) = ListedAs table i ce.key ce.allocated

  pub record Inv (cs : CacheSystem C) : Type 0 where
    pub backed : (k : ℕ) → Backed cs.entries k (find k cs.table)
    pub listed : (i : ℕ) → Listed cs.table i (get_elem? cs.entries i)
    pub lru_once : (i : ℕ) → occurs i cs.lru ≡ (if ltb i (length cs.entries) then 1 else 0)

  pub get_elem?-lt :
      (es : List (CacheEntry C)) (i : ℕ) (ce : CacheEntry C)
      → get_elem? es i ≡ some ce
      → i < length es
  get_elem?-lt [] i ce h = cc
  get_elem?-lt (x ∷ es) zero ce h = omega arith
  get_elem?-lt (x ∷ es) (suc i) ce h = omega (arith, get_elem?-lt es i ce h)

module _ (C : Entry) where
  open C use {E}

  blank-Listed :
      (e : E) (n i j : ℕ) (table : List (ℕ × ℕ)) → Listed table i (get_elem? (blank {C = C} e n) j)
  unfolding blank
  blank-Listed e zero i j table = tt
  blank-Listed e (suc n) i zero table = tt
  blank-Listed e (suc n) i (suc j) table = blank-Listed e n i j table

  length-blank : (e : E) (n : ℕ) → length (blank {C = C} e n) ≡ n
  unfolding blank
  length-blank e zero = refl
  length-blank e (suc n) = ap suc (length-blank e n)

module _ {C : Entry} where
  open C use {E, Outer, on_evict, on_cache_map}

  -- A newly constructed cache is well formed: the table and the entries agree, and the LRU list
  -- has each index once.
  pub init-Inv : (n : ℕ) (e : E) (o : Outer) → Inv (init {C = C} n e o)
  unfolding init find
  init-Inv n e o = record {
    backed = λ k. tt;
    listed = λ i. blank-Listed C e n i i [];
    lru_once = λ i. ground (arith, occurs-range_from i 0 n, length-blank C e n);
  }

  -- Writing the slot `idx`, whose key `k` the table had, as a free one and taking the key out.
  module _ (cs : CacheSystem C) (idx : ℕ) (ce ce' : CacheEntry C)
      (at : get_elem? cs.entries idx ≡ some ce) (allocated : ce.allocated ≡ true) (v : Inv cs)
      (freed : ce'.allocated ≡ false) where
    pub key-listed : find ce.key cs.table ≡ some idx
    key-listed =
        let l : Listed cs.table idx (some ce) = rw at at (v.listed idx) in rw allocated at l

    pub free-Backed : (k : ℕ) → Backed (set cs.entries idx ce') k (find k (erase ce.key cs.table))
    free-Backed k = elim (Bool-cases (ce.key == k)) [
      | inl same ↦ rw (find-erase k ce.key cs.table, same) tt
      | inr other ↦
          rw (find-erase k ce.key cs.table, other)
            (kept (find k cs.table) (v.backed k) (λ e. absurd (ground (arith, e, other))))
    ]
      where
        kept :
            (o : Option ℕ)
            → Backed cs.entries k o
            → (ce.key ≡ k → ⊥)
            → Backed (set cs.entries idx ce') k o
        kept none b ne = tt
        kept (some i) b ne =
            set-at (HasKey k) cs.entries idx i ce' (get_elem?-lt cs.entries idx ce at)
              (λ e. let b' : HasKey k (some ce) = rw (← e, at) at b in absurd (ne b'.1)) (λ e. b)

    pub free-Listed :
        (i : ℕ) → Listed (erase ce.key cs.table) i (get_elem? (set cs.entries idx ce') i)
    free-Listed i =
        set-at (Listed (erase ce.key cs.table) i) cs.entries idx i ce'
          (get_elem?-lt cs.entries idx ce at) (λ e. rw freed tt)
          (λ e. kept e (get_elem? cs.entries i) (v.listed i))
      where
        kept-as :
            idx ≢ i
            → (k : ℕ) (a : Bool) → ListedAs cs.table i k a
            → ListedAs (erase ce.key cs.table) i k a
        kept-as e k true l = ground (arith, find-erase k ce.key cs.table, l, key-listed, e)
        kept-as e k false l = tt

        kept :
            idx ≢ i
            → (o : Option (CacheEntry C)) → Listed cs.table i o
            → Listed (erase ce.key cs.table) i o
        kept e none l = tt
        kept e (some c) l = kept-as e c.key c.allocated l

    pub lru_kept :
        (i : ℕ) → occurs i cs.lru ≡ (if ltb i (length (set cs.entries idx ce')) then 1 else 0)
    lru_kept i = rw (length-set cs.entries idx ce') (v.lru_once i)

  pub evict_at-Inv :
      (cs : CacheSystem C) (idx : ℕ) (ce : CacheEntry C)
      → get_elem? cs.entries idx ≡ some ce
      → ce.allocated ≡ true
      → Inv cs
      → Inv (evict_at idx ce cs)
  unfolding evict_at
  evict_at-Inv cs idx ce at a v =
      let ce' : CacheEntry C = record ce {
        entry = (on_evict ce.entry cs.outer).0;
        allocated = false;
      } in
      record {
        backed = free-Backed cs idx ce ce' at a v refl;
        listed = free-Listed cs idx ce ce' at a v refl;
        lru_once = lru_kept cs idx ce ce' at a v refl;
      }

  pub touch-Inv :
      (u : Bool) (idx : ℕ) (cs : CacheSystem C)
      → idx < length cs.entries
      → Inv cs
      → Inv (touch u idx cs)
  unfolding touch
  touch-Inv false idx cs h v = v
  touch-Inv true idx cs h v = record {
    backed = v.backed;
    listed = v.listed;
    lru_once =
        λ i. occurs-move_to_back i idx cs.lru (ground (arith, v.lru_once idx)) ∙ v.lru_once i;
  }

  -- A free slot, and a key that is not in the table.
  module _ (cs : CacheSystem C) (key idx : ℕ) (ce : CacheEntry C)
      (at : get_elem? cs.entries idx ≡ some ce) (is_free : ce.allocated ≡ false)
      (absent : find key cs.table ≡ none) (v : Inv cs) where
    pub mapped : CacheEntry C
    mapped = record { allocated = true; key = key; entry = on_cache_map idx ce.entry }

    pub map_slot-eq :
        map_slot key idx cs
        ≡ record cs { entries = set cs.entries idx mapped; table = assign key idx cs.table }
    unfolding map_slot mapped
    map_slot-eq = rw (at, map_slot)

    map-Backed : (k : ℕ) → Backed (set cs.entries idx mapped) k (find k (assign key idx cs.table))
    unfolding mapped
    map-Backed k = elim (Bool-cases (key == k)) [
      | inl same ↦
          rw (find-assign k key idx cs.table, same)
            (rw (get_elem?-set_self cs.entries idx mapped (get_elem?-lt cs.entries idx ce at))
              (refl, ground arith))
      | inr other ↦ rw (find-assign k key idx cs.table, other) (kept (find k cs.table) (v.backed k))
    ]
      where
        kept : (o : Option ℕ) → Backed cs.entries k o → Backed (set cs.entries idx mapped) k o
        kept none b = tt
        kept (some i) b =
            set-at (HasKey k) cs.entries idx i mapped (get_elem?-lt cs.entries idx ce at)
              (λ e.
                let b' : HasKey k (some ce) = rw (← e, at) at b in
                absurd (ground (arith, b'.0, is_free)))
              (λ e. b)

    map-Listed :
        (i : ℕ) → Listed (assign key idx cs.table) i (get_elem? (set cs.entries idx mapped) i)
    unfolding mapped
    map-Listed i =
        set-at (Listed (assign key idx cs.table) i) cs.entries idx i mapped
          (get_elem?-lt cs.entries idx ce at)
          (λ e. ground (arith, find-assign key key idx cs.table, e))
          (λ e. kept e (get_elem? cs.entries i) (v.listed i))
      where
        kept-as :
            idx ≢ i
            → (k : ℕ) (a : Bool) → ListedAs cs.table i k a
            → ListedAs (assign key idx cs.table) i k a
        kept-as e k true l = ground (arith, find-assign k key idx cs.table, l, absent, e)
        kept-as e k false l = tt

        kept :
            idx ≢ i
            → (o : Option (CacheEntry C)) → Listed cs.table i o
            → Listed (assign key idx cs.table) i o
        kept e none l = tt
        kept e (some c) l = kept-as e c.key c.allocated l

    pub map_slot-Inv : Inv (map_slot key idx cs)
    map_slot-Inv = rw map_slot-eq (record {
      backed = map-Backed;
      listed = map-Listed;
      lru_once = λ i. rw (length-set cs.entries idx mapped) (v.lru_once i);
    })
