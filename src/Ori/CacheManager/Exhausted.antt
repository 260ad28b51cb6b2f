-- ===== src/Ori/CacheManager/Exhausted.antt =====
-- `get_entry` dies only if the program has checked out every block of the cache.
use itoyori.Prelude.{
  equals_zero, ℕ, ◌≡◌, ◌↔◌, ◌⊎◌, refl, ap, sym, subst, ◌∙◌, inl, inr, Bool, true, false, not, ◌&&◌,
  List, [], ◌∷◌, Option, none, some, arith, get_elem?, Option-cases,
}
use mathlib.Core.Bool.{true≢false}
use itoyori.Ori.CacheSystem.{CacheSystem, Result, ok, cache_full, find}
use itoyori.Ori.CacheSystem
use itoyori.Ori.CacheSystem.Slots.{busy, AllBusy}
use itoyori.Ori.CacheSystem.Eviction.{ensure_cached-full_iff}
use itoyori.Ori.CacheManager.{Config, CacheManager, block_entry, is_empty, is_writing_back}
use itoyori.Ori.CacheManager.Dirty.{ensure_all_cache_clean}
use itoyori.Ori.CacheManager.Dirty.Rounds.{Slot}
use itoyori.Ori.CacheManager.Dirty.Clean.{IsClean, ensure_all_cache_clean-IsClean}
use itoyori.Ori.CacheManager.Dirty.Tracking.{IsTracked}
use itoyori.Ori.CacheManager.Dirty.Frame.{Kept, ensure_all_cache_clean-Framed}
use itoyori.Ori.CacheManager.Checkout.{cache_key, get_entry}

-- The block is checked out.
abbrev pub pinned : Option Slot → Bool
pinned none = true
pinned (some ce) = ce.allocated && not (equals_zero ce.entry.ref_count)

abbrev pub AllPinned : List Slot → List ℕ → Type 0
AllPinned es [] = Unit {0}
AllPinned es (i ∷ l) = (pinned (get_elem? es i) ≡ true) × AllPinned es l

Kept-pinned : (o o' : Option Slot) → Kept o o' → pinned o' ≡ pinned o
Kept-pinned none none k = refl
Kept-pinned none (some b) k = absurd k
Kept-pinned (some a) none k = absurd k
Kept-pinned (some a) (some b) (d, e, q) = ap (λ (s : Slot). pinned (some s)) q

pinned_blocks : (a z e w : Bool) → (a && not z) ≡ true → (a && not (z && e && not w)) ≡ true
pinned_blocks true false e w h = refl
pinned_blocks true true e w h = absurd (true≢false (sym h))
pinned_blocks false z e w h = absurd (true≢false (sym h))

blocked_is_pinned :
    (a z e w : Bool)
    → e ≡ true
    → w ≡ false
    → (a && not (z && e && not w)) ≡ true
    → (a && not z) ≡ true
blocked_is_pinned a false e w he hw h = ground (arith, h)
blocked_is_pinned a true e w he hw h = ground (arith, he, hw, h)

-- A block that is checked out cannot be evicted, and one of a clean cache that cannot is checked out.
pinned-busy :
    (cs : CacheSystem block_entry) (i : ℕ)
    → pinned (get_elem? cs.entries i) ≡ true
    → busy cs i ≡ true
pinned-busy cs i h = elim (Option-cases (get_elem? cs.entries i)) [
  | inl e ↦ rw (e, busy) refl
  | inr (ce, e) ↦
      let p : pinned (some ce) ≡ true = subst (λ (o : Option Slot). pinned o ≡ true) e h in
      rw (e, busy)
        (pinned_blocks ce.allocated (equals_zero ce.entry.ref_count)
          (is_empty ce.entry.dirty_regions) (is_writing_back ce.entry cs.outer) p)
]

busy-pinned :
    (m : CacheManager) (i : ℕ)
    → IsClean m
    → busy m.cs i ≡ true
    → pinned (get_elem? m.cs.entries i) ≡ true
busy-pinned m i c h = elim (Option-cases (get_elem? m.cs.entries i)) [
  | inl e ↦ rw e refl
  | inr (ce, e) ↦
      let b = rw (e, busy) at h in
      let q = c.blocks i ce e in
      rw e (
        blocked_is_pinned ce.allocated (equals_zero ce.entry.ref_count)
          (is_empty ce.entry.dirty_regions) (is_writing_back ce.entry m.cs.outer) q.0 q.1 b)
]

AllPinned-busy : (cs : CacheSystem block_entry) (l : List ℕ) → AllPinned cs.entries l → AllBusy cs l
AllPinned-busy cs [] h = tt
AllPinned-busy cs (i ∷ l) h = (pinned-busy cs i h.0, AllPinned-busy cs l h.1)

AllBusy-pinned :
    (m : CacheManager) (l : List ℕ) → IsClean m → AllBusy m.cs l → AllPinned m.cs.entries l
AllBusy-pinned m [] c h = tt
AllBusy-pinned m (i ∷ l) c h = (busy-pinned m i c h.0, AllBusy-pinned m l c h.1)

AllPinned-Kept :
    (es es' : List Slot) (l : List ℕ)
    → ((i : ℕ) → Kept (get_elem? es i) (get_elem? es' i))
    → AllPinned es' l
    → AllPinned es l
AllPinned-Kept es es' [] k h = tt
AllPinned-Kept es es' (i ∷ l) k h =
    (sym (Kept-pinned _ _ (k i)) ∙ h.0, AllPinned-Kept es es' l k h.1)

AllPinned-keeps :
    (es es' : List Slot) (l : List ℕ)
    → ((i : ℕ) → Kept (get_elem? es i) (get_elem? es' i))
    → AllPinned es l
    → AllPinned es' l
AllPinned-keeps es es' [] k h = tt
AllPinned-keeps es es' (i ∷ l) k h = (Kept-pinned _ _ (k i) ∙ h.0, AllPinned-keeps es es' l k h.1)

Result-cases : {A : Type 0} (r : Result A) → ((a : A) × (r ≡ ok a)) ⊎ (r ≡ cache_full)
Result-cases (ok a) = inl (a, refl)
Result-cases cache_full = inr refl

get_entry-cases {ℓ} :
    (P : Option (ℕ × CacheManager) → Type ℓ) (g : Config) (u : Bool) (addr : ℕ) (m : CacheManager)
    → ((r : ℕ × CacheManager) → P (some r))
    → (CacheSystem.ensure_cached u (cache_key g addr) m.cs ≡ cache_full
        → CacheSystem.ensure_cached u (cache_key g addr) (ensure_all_cache_clean g m).cs
          ≡ cache_full
        → P none)
    → P (get_entry g u addr m)
unfolding get_entry
get_entry-cases P g u addr m found full =
    elim (Result-cases (CacheSystem.ensure_cached u (cache_key g addr) m.cs)) [
      | inl (r, e) ↦ rw (e, get_entry) (found (r.0, record m { cs = r.1 }))
      | inr e ↦
          rw (e, get_entry)
            (elim (Result-cases
              (CacheSystem.ensure_cached u (cache_key g addr) (ensure_all_cache_clean g m).cs)) [
                | inl (r, f) ↦
                    rw (f, get_entry)
                      (found (r.0, record (ensure_all_cache_clean g m) { cs = r.1 }))
                | inr f ↦ rw (f, get_entry) (full e f)
              ])
    ]

get_entry-full :
    (g : Config) (u : Bool) (addr : ℕ) (m : CacheManager)
    → CacheSystem.ensure_cached u (cache_key g addr) m.cs ≡ cache_full
    → CacheSystem.ensure_cached u (cache_key g addr) (ensure_all_cache_clean g m).cs ≡ cache_full
    → get_entry g u addr m ≡ none
unfolding get_entry
get_entry-full g u addr m e f = rw (e, get_entry) (rw (f, get_entry) refl)

-- On a manager with the same bookkeeping of dirty blocks, get_entry dies exactly if the block is
-- not cached and every slot of the LRU list is allocated to a block that is checked out (or out
-- of the vector).
pub get_entry-none_iff :
    (g : Config) (u : Bool) (addr : ℕ) (m : CacheManager)
    → IsTracked m.dirty_cache_blocks m
    → (get_entry g u addr m ≡ none)
      ↔ ((find (cache_key g addr) m.cs.table ≡ none) × AllPinned m.cs.entries m.cs.lru)
get_entry-none_iff g u addr m v =
    let c = ensure_all_cache_clean-IsClean g m v in
    let f = ensure_all_cache_clean-Framed g m in
    let key = cache_key g addr in
    let cleaned = ensure_all_cache_clean g m in
    (
      get_entry-cases
          (λ r. r ≡ none → (find key m.cs.table ≡ none) × AllPinned m.cs.entries m.cs.lru) g u addr
          m (λ r e. cc)
          (λ first again e. (
            ((ensure_cached-full_iff u key m.cs).0 first).0,
            subst (AllPinned m.cs.entries) f.lru (
                AllPinned-Kept m.cs.entries cleaned.cs.entries cleaned.cs.lru f.blocks (
                  AllBusy-pinned cleaned cleaned.cs.lru c
                    ((ensure_cached-full_iff u key cleaned.cs).0 again).1)),
          )),
      λ h.
          get_entry-full g u addr m
            ((ensure_cached-full_iff u key m.cs).1 (h.0, AllPinned-busy m.cs m.cs.lru h.1))
            ((ensure_cached-full_iff u key cleaned.cs).1 (
              ap (find key) f.table ∙ h.0,
              AllPinned-busy cleaned.cs cleaned.cs.lru (
                  AllPinned-keeps m.cs.entries cleaned.cs.entries cleaned.cs.lru f.blocks
                    (subst (AllPinned m.cs.entries) (sym f.lru) h.1)),
            )),
    )
