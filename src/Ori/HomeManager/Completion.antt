-- ===== src/Ori/HomeManager/Completion.antt =====
-- include/ityr/ori/home_manager.hpp: checkout_complete maps each segment of the list, in order.
use itoyori.Prelude.{
  ℕ, ◌≡◌, ◌≢◌, refl, sym, ap, subst, ◌∙◌, inl, inr, true, List, ◌∷◌, some, arith, get_elem?, ◌==◌,
  if◌then◌else◌, Bool-cases,
}
use mathlib.Core.Bool.{true≢false}
use itoyori.Ori.Tlb.Members.{Every-map}
use itoyori.Ori.HomeManager.{MmapEntry, HomeManager, Mapping, unmap, update_mapping}
use itoyori.Ori.HomeManager.Backing.{
  HomeSegments, Backs, map-Backs, map-Backs_apart, unmap-Backs_apart,
}
use itoyori.Ori.HomeManager.Writes.{Slot, wrote, put_entry-at, set-Inv, get-set-cases}
use itoyori.Ori.HomeManager.Slots.{remapped}
use itoyori.Ori.HomeManager.Pending.{
  listed, before, IsFor, HasMapped, SlotFits, SlotFor, Pending, slots_apart,
}
use itoyori.Ori.HomeManager.Rewrites.{set-Waiting, set-SlotFor}

-- The entry once it is mapped.
abbrev pub arrived : MmapEntry → MmapEntry
arrived me = record me { mapped_addr = me.addr; mapped_size = me.size }

pub update_mapping-at :
    (i : ℕ) (ce : Slot) (m : HomeManager)
    → get_elem? m.cs.entries i ≡ some ce
    → update_mapping i ce.entry m
      ≡ wrote i ce (arrived ce.entry) (record m { mappings = remapped ce.entry m.mappings })
unfolding update_mapping
update_mapping-at i ce m at =
    put_entry-at i ce _ (record m { mappings = remapped ce.entry m.mappings }) at

module _ {block_size : ℕ} (h : HomeSegments block_size) where
  open h use {IsSegment, size_of, pm_of, offset_of}

  -- The segment of an entry is mapped, and those that are apart from it and from the old one stay.
  remapped-Backs :
      (log : List Mapping) (key : ℕ) (me : MmapEntry)
      → IsFor h key me
      → Backs h (remapped me log) me.addr
  remapped-Backs log key me f = rw (f.sized, f.in_pm, f.at_offset) (map-Backs h _ me.addr)

  remapped-Backs_apart :
      (log : List Mapping) (key b : ℕ) (me : MmapEntry)
      → IsFor h key me
      → HasMapped h me
      → IsSegment b
      → me.addr ≢ b
      → me.mapped_addr ≢ b
      → Backs h log b
      → Backs h (remapped me log) b
  remapped-Backs_apart log key b me f had ib ne old_ne back =
      rw f.sized (map-Backs_apart h _ me.addr b me.pm me.pm_offset f.is_segment ib ne (under had))
    where
      under :
          HasMapped h me
          → Backs h
              (if me.mapped_addr == 0 then log else unmap me.mapped_addr me.mapped_size ∷ log)
              b
      under (inl z) = rw z back
      under (inr (is, size)) = elim (Bool-cases (me.mapped_addr == 0)) [
        | inl z ↦ rw z back
        | inr nz ↦ rw (nz, size) (unmap-Backs_apart h log me.mapped_addr b is ib old_ne back)
      ]

  module _ (l : List ℕ) (i : ℕ) (m : HomeManager) (p : Pending h (i ∷ l) m) (ce : Slot)
      (at : get_elem? m.cs.entries i ≡ some ce) (al : ce.allocated ≡ true) where
    abbrev pub step : HomeManager
    step = wrote i ce (arrived ce.entry) (record m { mappings = remapped ce.entry m.mappings })

    abbrev pub now : Slot
    now = record ce { entry = arrived ce.entry }

    f : IsFor h ce.key ce.entry
    f = (p.slots i ce at).used al

    now-SlotFits : SlotFits h l step.mappings i now
    now-SlotFits = record {
      used = λ _. record {
        is_segment = f.is_segment;
        keyed = f.keyed;
        sized = f.sized;
        in_pm = f.in_pm;
        at_offset = f.at_offset;
      };
      settled = λ _ n. (refl, remapped-Backs m.mappings ce.key ce.entry f);
      mapped = inr (f.is_segment, f.sized);
      counted = (p.slots i ce at).counted;
      unused = λ e. absurd (true≢false (sym al ∙ e));
    }

    other-SlotFits :
        (j : ℕ) (d : Slot)
        → i ≢ j
        → get_elem? m.cs.entries j ≡ some d
        → SlotFits h l step.mappings j d
    unfolding listed before
    other-SlotFits j d ne dat =
        let old = p.slots j d dat in
        record {
          used = old.used;
          settled = λ a n.
              let (there, back) = old.settled a (ground (arith, ne, n)) in
              let g = old.used a in
              (
                there,
                remapped-Backs_apart m.mappings ce.key d.entry.addr ce.entry f
                    (p.slots i ce at).mapped g.is_segment
                    (slots_apart h (i ∷ l) m p i j ce d at dat al a ne)
                    (λ e.
                      let o = p.order j i d ce dat at ne a e in
                      true≢false (sym o.0 ∙ ground (arith, ne, n)))
                    back,
              );
          mapped = old.mapped;
          counted = old.counted;
          unused = λ a. ((old.unused a).0, ground (arith, (old.unused a).1));
        }

    step-order :
        (k j : ℕ) (c d : Slot)
        → get_elem? step.cs.entries k ≡ some c
        → get_elem? step.cs.entries j ≡ some d
        → j ≢ k
        → c.allocated ≡ true
        → d.entry.mapped_addr ≡ c.entry.addr
        → (listed k l ≡ true) × (before j k l ≡ true)
    unfolding listed before
    step-order k j c d cat dat ne ca there = elim (get-set-cases m.cs.entries i ce now at k c cat) [
      | inl (ek, same_c) ↦ elim (get-set-cases m.cs.entries i ce now at j d dat) [
        | inl (ej, same_d) ↦ absurd (ne (sym ej ∙ ek))
        | inr (nj, old_d) ↦ absurd (
            let o =
              p.order i j ce d at old_d (λ e. nj (sym e)) al
                (there ∙ ap (λ (x : Slot). x.entry.addr) (sym same_c)) in
            true≢false (sym o.1 ∙ ground (arith, nj)))
      ]
      | inr (nk, old_c) ↦ elim (get-set-cases m.cs.entries i ce now at j d dat) [
        | inl (ej, same_d) ↦ absurd (
            slots_apart h (i ∷ l) m p i k ce c at old_c al ca nk
              (ap (λ (x : Slot). x.entry.mapped_addr) same_d ∙ there))
        | inr (nj, old_d) ↦
            let o = p.order k j c d old_c old_d ne ca there in
            (ground (arith, o.0, nk), ground (arith, o.1, nj, nk))
      ]
    ]

    pub step-Pending : Pending h l step
    unfolding listed
    step-Pending = record {
      inv = set-Inv i ce (arrived ce.entry) m.cs at p.inv;
      slots = λ j c cat. elim (get-set-cases m.cs.entries i ce now at j c cat) [
        | inl (e, same) ↦
            subst (λ (x : Slot). SlotFits h l step.mappings j x) same
              (subst (λ k. SlotFits h l step.mappings k now) e now-SlotFits)
        | inr (ne, old) ↦ other-SlotFits j c ne old
      ];
      order = step-order;
      waiting = λ j w.
          set-Waiting h m.cs.entries i ce (arrived ce.entry) j at (p.waiting j (ground (arith, w)));
      tlb =
          Every-map (SlotFor h m.cs.entries) _ m.cs.outer.entries
            (λ sp j. set-SlotFor h m.cs.entries i ce (arrived ce.entry) sp j at refl) p.tlb;
    }
