-- ===== src/Ori/HomeManager/Writes.antt =====
-- include/ityr/ori/home_manager.hpp: writes to an entry.
use itoyori.Prelude.{
  ℕ, ◌<◌, ◌≡◌, ◌≢◌, ◌⊎◌, refl, sym, ap, subst, ◌∙◌, inl, inr, List, Option, none, some, get_elem?,
  set, length, length-set, get_elem?-set_self, get_elem?-set_ne,
}
use Prim.{tt}
use native.Mathlib.Decide.{ℕ_discrete}
use mathlib.Core.Option.{some-injective}
use itoyori.Ori.CacheSystem.{CacheEntry, CacheSystem, find}
use itoyori.Ori.CacheSystem.Invariant.{Inv, HasKey, Backed, Listed, set-at, get_elem?-lt}
use itoyori.Ori.HomeManager.{MmapEntry, mmap_entry, HomeManager, put_entry}

abbrev pub Slot : Type 0
Slot = CacheEntry mmap_entry

-- What `put_entry` leaves.
abbrev pub wrote : ℕ → Slot → MmapEntry → HomeManager → HomeManager
wrote i ce me m = record m {
  cs = record m.cs { entries = set m.cs.entries i (record ce { entry = me }) };
}

pub put_entry-at :
    (i : ℕ) (ce : Slot) (me : MmapEntry) (m : HomeManager)
    → get_elem? m.cs.entries i ≡ some ce
    → put_entry i me m ≡ wrote i ce me m
unfolding put_entry
put_entry-at i ce me m at = rw (at, put_entry) refl

pub set-Inv :
    (i : ℕ) (ce : Slot) (me : MmapEntry) (cs : CacheSystem mmap_entry)
    → get_elem? cs.entries i ≡ some ce
    → Inv cs
    → Inv (record cs { entries = set cs.entries i (record ce { entry = me }) })
set-Inv i ce me cs at v = record {
  backed = λ k. backed k (find k cs.table) (v.backed k);
  listed = λ j.
      set-at (Listed cs.table j) cs.entries i j (record ce { entry = me }) lt
        (λ e. subst (Listed cs.table j) (ap (get_elem? cs.entries) (sym e) ∙ at) (v.listed j))
        (λ e. v.listed j);
  lru_once = λ j. rw (length-set cs.entries i (record ce { entry = me })) (v.lru_once j);
}
  where
    lt : i < length cs.entries
    lt = get_elem?-lt cs.entries i ce at

    backed :
        (k : ℕ) (o : Option ℕ)
        → Backed cs.entries k o
        → Backed (set cs.entries i (record ce { entry = me })) k o
    backed k none b = tt
    backed k (some j) b =
        set-at (HasKey k) cs.entries i j (record ce { entry = me }) lt
          (λ e. subst (HasKey k) (ap (get_elem? cs.entries) (sym e) ∙ at) b) (λ e. b)

-- What is read after a write in range: the new value at the index, and the old one elsewhere.
pub get-set-cases :
    (es : List Slot) (i : ℕ) (old new : Slot)
    → get_elem? es i ≡ some old
    → (j : ℕ) (c : Slot) → get_elem? (set es i new) j ≡ some c
    → ((i ≡ j) × (new ≡ c)) ⊎ ((i ≢ j) × (get_elem? es j ≡ some c))
get-set-cases es i old new at j c at' = elim (ℕ_discrete i j) [
  | yes e ↦ inl (
    e,
    some-injective new c (
        sym (get_elem?-set_self es i new (get_elem?-lt es i old at))
        ∙ ap (get_elem? (set es i new)) e
        ∙ at'),
  )
  | no ne ↦ inr (ne, sym (get_elem?-set_ne es new ne) ∙ at')
]
