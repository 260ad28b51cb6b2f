-- ===== src/Ori/HomeManager/Pending.antt =====
-- include/ityr/ori/home_manager.hpp: the invariant while segments wait to be mapped. An entry may wait for
-- an address that another entry still has mapped; that one is in front of it in the list.
use itoyori.Prelude.{
  IsNatural, IsPositive, ℕ, ◌/◌, ◌≡◌, ◌≢◌, sym, ap, subst, ◌∙◌, ◌⊎◌, Bool, true, false, ◌||◌, List,
  [], ◌∷◌, ◌++◌, some, arith, get_elem?, ◌==◌, if◌then◌else◌,
}
use mathlib.Core.Option.{some-injective}
use itoyori.Ori.Tlb.Members.{Every}
use itoyori.Ori.CacheSystem.{CacheSystem, find}
use itoyori.Ori.CacheSystem.Invariant.{Inv, Listed, ListedAs}
use itoyori.Ori.HomeManager.{MmapEntry, mmap_entry, HomeManager, Span, Mapping}
use itoyori.Ori.HomeManager.Backing.{HomeSegments, Backs}
use itoyori.Ori.HomeManager.Writes.{Slot}

unfoldable pub listed : ℕ → List ℕ → Bool
listed i [] = false
listed i (x ∷ xs) = x == i || listed i xs

-- The first of the two in the list is `j`.
unfoldable pub before : ℕ → ℕ → List ℕ → Bool
before j k [] = false
before j k (x ∷ xs) =
    let later = before j k xs in if x == j then true else if x == k then false else later

pub listed-append : (j i : ℕ) (xs : List ℕ) → listed j (xs ++ (i ∷ [])) ≡ (listed j xs || i == j)
unfolding listed
listed-append j i [] = ground arith
listed-append j i (x ∷ xs) = ground (arith, listed-append j i xs)

pub before-append :
    (j k i : ℕ) (xs : List ℕ) → before j k xs ≡ true → before j k (xs ++ (i ∷ [])) ≡ true
unfolding before
before-append j k i [] b = absurd (ground (arith, b))
before-append j k i (x ∷ xs) b = ground (arith, before-append j k i xs, b)

pub before-listed : (j k : ℕ) (xs : List ℕ) → before j k xs ≡ true → listed j xs ≡ true
unfolding before listed
before-listed j k [] b = b
before-listed j k (x ∷ xs) b = ground (arith, before-listed j k xs, b)

pub before-new :
    (j k : ℕ) (xs : List ℕ) → listed j xs ≡ true → listed k xs ≡ false → before j k xs ≡ true
unfolding before listed
before-new j k [] l n = l
before-new j k (x ∷ xs) l n = ground (arith, before-new j k xs, l, n)

module _ {block_size : ℕ} (h : HomeSegments block_size) where
  open h use {IsSegment, size_of, pm_of, offset_of}

  -- The entry is for the segment of the key.
  pub record IsFor (key : ℕ) (me : MmapEntry) : Type 0 where
    pub is_segment : IsSegment me.addr
    pub keyed : me.addr / block_size ≡ key
    pub sized : me.size ≡ size_of me.addr
    pub in_pm : me.pm ≡ pm_of me.addr
    pub at_offset : me.pm_offset ≡ offset_of me.addr

  -- What a slot has mapped: nothing, or a segment.
  abbrev pub HasMapped : MmapEntry → Type 0
  HasMapped me =
      (me.mapped_addr ≡ 0) ⊎ (IsSegment me.mapped_addr × (me.mapped_size ≡ size_of me.mapped_addr))

  pub record SlotFits (l : List ℕ) (log : List Mapping) (i : ℕ) (ce : Slot) : Type 0 where
    pub used : ce.allocated ≡ true → IsFor ce.key ce.entry
    pub settled :
        ce.allocated ≡ true
        → listed i l ≡ false
        → (ce.entry.mapped_addr ≡ ce.entry.addr) × Backs h log ce.entry.addr
    pub mapped : HasMapped ce.entry
    pub counted : IsNatural ce.entry.ref_count
    pub unused : ce.allocated ≡ false → (ce.entry.mapped_addr ≡ 0) × (listed i l ≡ false)

  -- The slot that the tlb gives for a segment is for it.
  unfoldable pub SlotFor : List Slot → Span → ℕ → Type 0
  SlotFor es s i =
      (ce : Slot) × (get_elem? es i ≡ some ce)
      × (ce.allocated ≡ true)
      × (ce.entry.addr ≡ s.begin)
      × (s.size ≡ size_of s.begin)

  abbrev pub Waiting : List Slot → ℕ → Type 0
  Waiting es i = (ce : Slot) × (get_elem? es i ≡ some ce) × (ce.allocated ≡ true)

  -- The segments in the list wait to be mapped.
  pub record Pending (l : List ℕ) (m : HomeManager) : Type 0 where
    pub inv : Inv m.cs
    pub slots :
        (i : ℕ) (ce : Slot) → get_elem? m.cs.entries i ≡ some ce → SlotFits l m.mappings i ce
    pub order :
        (k j : ℕ) (c d : Slot)
        → get_elem? m.cs.entries k ≡ some c
        → get_elem? m.cs.entries j ≡ some d
        → j ≢ k
        → c.allocated ≡ true
        → d.entry.mapped_addr ≡ c.entry.addr
        → (listed k l ≡ true) × (before j k l ≡ true)
    pub waiting : (i : ℕ) → listed i l ≡ true → Waiting m.cs.entries i
    pub tlb : Every (SlotFor m.cs.entries) m.cs.outer.entries

  -- The key of an allocated slot is in the table for it.
  pub slot_key :
      (cs : CacheSystem mmap_entry) (j : ℕ) (ce : Slot)
      → Inv cs
      → get_elem? cs.entries j ≡ some ce
      → ce.allocated ≡ true
      → find ce.key cs.table ≡ some j
  slot_key cs j ce v at a =
      let l = subst (Listed cs.table j) at (v.listed j) in subst (ListedAs cs.table j ce.key) a l

  pub slot_found :
      (l : List ℕ) (m : HomeManager)
      → Pending l m
      → (j : ℕ) (c : Slot) → get_elem? m.cs.entries j ≡ some c
      → c.allocated ≡ true
      → find (c.entry.addr / block_size) m.cs.table ≡ some j
  slot_found l m p j c at al =
      subst (λ key. find key m.cs.table ≡ some j) (sym ((p.slots j c at).used al).keyed)
        (slot_key m.cs j c p.inv at al)

  -- Two slots are not for one segment.
  pub slots_apart :
      (l : List ℕ) (m : HomeManager)
      → Pending l m
      → (i j : ℕ) (c d : Slot) → get_elem? m.cs.entries i ≡ some c
      → get_elem? m.cs.entries j ≡ some d
      → c.allocated ≡ true
      → d.allocated ≡ true
      → i ≢ j
      → c.entry.addr ≢ d.entry.addr
  slots_apart l m p i j c d at at' al al' ne e = ne (
      some-injective i j (
        sym (slot_found l m p i c at al)
        ∙ ap (λ a. find (a / block_size) m.cs.table) e
        ∙ slot_found l m p j d at' al'))

  -- The segment's entry is cached, and counted if it is to be.
  pub record Held (inc : Bool) (a : ℕ) (m : HomeManager) : Type 0 where
    pub idx : ℕ
    pub slot : Slot
    pub found : find (a / block_size) m.cs.table ≡ some idx
    pub at : get_elem? m.cs.entries idx ≡ some slot
    pub allocated : slot.allocated ≡ true
    pub there : slot.entry.addr ≡ a
    pub referred : inc ≡ true → IsPositive slot.entry.ref_count
