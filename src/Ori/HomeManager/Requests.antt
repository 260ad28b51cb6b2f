-- ===== src/Ori/HomeManager/Requests.antt =====
-- include/ityr/ori/home_manager.hpp: checkout_seg of a segment that is cached, mapped or waiting.
use itoyori.Prelude.{
  IsNatural, IsPositive, increment-IsPositive, increment-IsNatural, IsPositive-IsNatural,
  equals_zero-IsPositive, ℕ, ◌+◌, ◌*◌, ◌/◌, ◌≡◌, ◌≢◌, refl, sym, ap, ap₂, subst, ◌∙◌, inl, inr,
  Bool, true, false, List, Option, none, some, get_elem?, get_elem?-set_self, Option-cases,
}
use native.Mathlib.Nat.{mod-add-div}
use itoyori.Ori.Tlb.{Tlb}
use itoyori.Ori.Tlb.Members.{Every, add-Every}
use itoyori.Ori.CacheSystem.{CacheSystem, ok, ensure_cached, find}
use itoyori.Ori.CacheSystem.Slots.{AllBusy}
use itoyori.Ori.CacheSystem.Invariant.{Inv, HasKey, get_elem?-lt}
use itoyori.Ori.CacheSystem.Eviction.{StillHolds, Holds, ensure_cached-StillHolds}
use itoyori.Ori.CacheSystem.Served.{Hit}
use itoyori.Ori.HomeManager.{MmapEntry, mmap_entry, HomeManager, Span}
use itoyori.Ori.HomeManager.Backing.{HomeSegments}
use itoyori.Ori.HomeManager.Writes.{Slot, wrote, get-set-cases}
use itoyori.Ori.HomeManager.Slots.{counted, in_tlb}
use itoyori.Ori.HomeManager.Pending.{listed, SlotFor, Pending, Held, Waiting}
use itoyori.Ori.HomeManager.Rewrites.{tlb-Pending}
use itoyori.Ori.HomeManager.Completed.{IsPending}

module _ {block_size : ℕ} (h : HomeSegments block_size) where
  open h use {IsSegment, size_of, pm_of, offset_of}

  pub same_block : (a b : ℕ) → IsSegment a → IsSegment b → a / block_size ≡ b / block_size → a ≡ b
  same_block a b ia ib e =
      sym (mod-add-div a block_size)
      ∙ ap₂ (λ r q. r + block_size * q) (h.aligned a ia ∙ sym (h.aligned b ib)) e
      ∙ mod-add-div b block_size

  -- What waits is referred to.
  abbrev pub Pinned : HomeManager → Type 0
  Pinned m =
      (i : ℕ) (ce : Slot)
      → listed i m.home_segments_to_map ≡ true
      → get_elem? m.cs.entries i ≡ some ce
      → IsPositive ce.entry.ref_count

  -- The manager after a checkout of the segment that does not die.
  pub record CheckedOut (inc : Bool) (a : ℕ) (m m1 : HomeManager) : Type 0 where
    pub pending : IsPending h m1
    pub held : Held h inc a m1
    pub pinned : inc ≡ true → Pinned m1
    pub others : (b : ℕ) → Held h true b m → Held h true b m1

  abbrev pub Outcome : Bool → ℕ → HomeManager → Option HomeManager → Type 0
  Outcome inc a m none = (find (a / block_size) m.cs.table ≡ none) × AllBusy m.cs m.cs.lru
  Outcome inc a m (some m1) = CheckedOut inc a m m1

  pub counted-IsPositive :
      (inc : Bool) (me : MmapEntry)
      → IsNatural me.ref_count
      → inc ≡ true
      → IsPositive (counted inc me)
  counted-IsPositive true me n e = increment-IsPositive me.ref_count n
  counted-IsPositive false me n e = absurd (cc)

  pub counted-IsNatural :
      (inc : Bool) (me : MmapEntry) → IsNatural me.ref_count → IsNatural (counted inc me)
  counted-IsNatural true me n = increment-IsNatural me.ref_count n
  counted-IsNatural false me n = n

  pub counted-kept :
      (inc : Bool) (me : MmapEntry) → IsPositive me.ref_count → IsPositive (counted inc me)
  counted-kept true me n = increment-IsPositive me.ref_count (IsPositive-IsNatural me.ref_count n)
  counted-kept false me n = n

  pub key_slot :
      (k i : ℕ) (es : List Slot)
      → HasKey k (get_elem? es i)
      → (ce : Slot) × (get_elem? es i ≡ some ce) × (ce.allocated ≡ true) × (ce.key ≡ k)
  key_slot k i es hk = elim (Option-cases (get_elem? es i)) [
    | inl e ↦ absurd (let b : HasKey {C = mmap_entry} k none = subst (HasKey k) e hk in b)
    | inr (ce, e) ↦ let b : HasKey k (some ce) = subst (HasKey k) e hk in (ce, e, b.0, b.1)
  ]

  -- What is held stays where it is when a key is cached.
  pub cached-Holds :
      (u : Bool) (key b i : ℕ) (m : HomeManager) (cs' : CacheSystem mmap_entry)
      → Inv m.cs
      → ensure_cached u key m.cs ≡ ok (i, cs')
      → (q : Held h true b m) → Holds (b / block_size) q.idx q.slot cs'
  cached-Holds u key b i m cs' v ran q = subst (StillHolds (b / block_size) q.idx q.slot) ran (
      ensure_cached-StillHolds (b / block_size) q.idx q.slot u key m.cs v (q.found, q.at)
        (equals_zero-IsPositive q.slot.entry.ref_count (q.referred refl)))

  pub Hit-Pending :
      (l : List ℕ) (key i : ℕ) (m : HomeManager) (cs' : CacheSystem mmap_entry)
      → Pending h l m
      → Inv cs'
      → Hit key i m.cs cs'
      → Pending h l (record m { cs = cs' })
  Hit-Pending l key i m cs' p v s = record {
    inv = v;
    slots = λ j c e. p.slots j c (before j c e);
    order = λ k j c d cat dat. p.order k j c d (before k c cat) (before j d dat);
    waiting = λ j w. subst (λ es. Waiting h es j) (sym s.same_entries) (p.waiting j w);
    tlb =
        subst (λ es. Every (SlotFor h es) cs'.outer.entries) (sym s.same_entries)
          (subst (λ (t : Tlb Span ℕ). Every (SlotFor h m.cs.entries) t.entries) (sym s.same_outer)
            p.tlb);
  }
    where
      before :
          (j : ℕ) (c : Slot) → get_elem? cs'.entries j ≡ some c → get_elem? m.cs.entries j ≡ some c
      before j c e = sym (ap (λ es. get_elem? es j) s.same_entries) ∙ e

  -- The parts of a checkout whose slot has been written.
  module _ (inc : Bool) (a : ℕ) (m : HomeManager) (i : ℕ) (cs' : CacheSystem mmap_entry)
      (l : List ℕ) (ce : Slot) (me : MmapEntry) (found : find (a / block_size) cs'.table ≡ some i)
      (at : get_elem? cs'.entries i ≡ some ce) (al : ce.allocated ≡ true) (there : me.addr ≡ a)
      (count : inc ≡ true → IsPositive me.ref_count) where
    abbrev pub done : HomeManager
    done =
        in_tlb inc a (size_of a) (pm_of a) (offset_of a) i block_size
          (wrote i ce me (record m { cs = cs'; home_segments_to_map = l }))

    pub at_done : get_elem? done.cs.entries i ≡ some (record ce { entry = me })
    at_done = get_elem?-set_self cs'.entries i _ (get_elem?-lt cs'.entries i ce at)

    pub done-Held : Held h inc a done
    done-Held = record {
      idx = i;
      slot = record ce { entry = me };
      found = found;
      at = at_done;
      allocated = al;
      there = there;
      referred = count;
    }

    pub done-IsPending :
        Pending h l (wrote i ce me (record m { cs = cs'; home_segments_to_map = l }))
        → IsPending h done
    unfolding SlotFor
    done-IsPending p =
        tlb-Pending h l _ _
          (add-Every (SlotFor h done.cs.entries) (record { begin = a; size = size_of a }) i
            cs'.outer (_, at_done, al, there, refl) p.tlb)
          p

    pub done-Pinned :
        Pinned m
        → ((j : ℕ) → i ≢ j → listed j l ≡ true → listed j m.home_segments_to_map ≡ true)
        → ((j : ℕ) → i ≢ j → get_elem? cs'.entries j ≡ get_elem? m.cs.entries j)
        → inc ≡ true
        → Pinned done
    done-Pinned pin same_list same_slot t j c w cat =
        elim (get-set-cases cs'.entries i ce (record ce { entry = me }) at j c cat) [
          | inl (e, new) ↦ subst (λ (x : Slot). IsPositive x.entry.ref_count) new (count t)
          | inr (ne, old) ↦ pin j c (same_list j ne w) (sym (same_slot j ne) ∙ old)
        ]

    pub tlb-Held :
        (b : ℕ) → Held h true b (wrote i ce me (record m { cs = cs' })) → Held h true b done
    tlb-Held b q = record {
      idx = q.idx;
      slot = q.slot;
      found = q.found;
      at = q.at;
      allocated = q.allocated;
      there = q.there;
      referred = q.referred;
    }
