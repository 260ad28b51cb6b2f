-- ===== src/Ori/HomeManager/Rewrites.antt =====
-- include/ityr/ori/home_manager.hpp: writes that leave an entry for its segment, and what joins the list.
use itoyori.Prelude.{
  IsNatural, ℕ, ◌≡◌, ◌≢◌, refl, sym, ap, subst, ◌∙◌, inl, inr, true, false, List, [], ◌∷◌, ◌++◌,
  some, arith, get_elem?, set, get_elem?-set_self, get_elem?-set_ne,
}
use native.Mathlib.Decide.{ℕ_discrete}
use mathlib.Core.Bool.{true≢false}
use mathlib.Core.Option.{some-injective}
use itoyori.Ori.Tlb.{Tlb}
use itoyori.Ori.Tlb.Members.{Every, Every-map}
use itoyori.Ori.CacheSystem.Invariant.{get_elem?-lt}
use itoyori.Ori.HomeManager.{MmapEntry, HomeManager, Span, with_tlb}
use itoyori.Ori.HomeManager.Backing.{HomeSegments, Backs}
use itoyori.Ori.HomeManager.Writes.{Slot, wrote, set-Inv, get-set-cases}
use itoyori.Ori.HomeManager.Pending.{
  listed-append, before-append, IsFor, HasMapped, SlotFits, SlotFor, Waiting, Pending,
}

module _ {block_size : ℕ} (h : HomeSegments block_size) where
  open h use {IsSegment, size_of, pm_of, offset_of}

  -- A slot that is allocated stays so.
  pub set-Waiting :
      (es : List Slot) (i : ℕ) (ce : Slot) (me : MmapEntry) (j : ℕ)
      → get_elem? es i ≡ some ce
      → Waiting h es j
      → Waiting h (set es i (record ce { entry = me })) j
  set-Waiting es i ce me j at (c, cat, al) = elim (ℕ_discrete i j) [
    | yes e ↦ (
      record ce { entry = me },
      subst
          (λ k. get_elem? (set es i (record ce { entry = me })) k ≡ some (record ce { entry = me }))
          e (get_elem?-set_self es i _ (get_elem?-lt es i ce at)),
      subst (λ (c : Slot). c.allocated ≡ true)
          (some-injective c ce (sym cat ∙ ap (get_elem? es) (sym e) ∙ at)) al,
    )
    | no ne ↦ (c, get_elem?-set_ne es _ ne ∙ cat, al)
  ]

  pub set-SlotFor :
      (es : List Slot) (i : ℕ) (ce : Slot) (me : MmapEntry) (s : Span) (j : ℕ)
      → get_elem? es i ≡ some ce
      → me.addr ≡ ce.entry.addr
      → SlotFor h es s j
      → SlotFor h (set es i (record ce { entry = me })) s j
  unfolding SlotFor
  set-SlotFor es i ce me s j at same (c, cat, al, begins, sizes) = elim (ℕ_discrete i j) [
    | yes e ↦
        let is_ce = some-injective c ce (sym cat ∙ ap (get_elem? es) (sym e) ∙ at) in
        (
          record ce { entry = me },
          subst
              (λ k.
                get_elem? (set es i (record ce { entry = me })) k ≡ some (record ce { entry = me }))
              e (get_elem?-set_self es i _ (get_elem?-lt es i ce at)),
          subst (λ (c : Slot). c.allocated ≡ true) is_ce al,
          same ∙ subst (λ (c : Slot). c.entry.addr ≡ s.begin) is_ce begins,
          sizes,
        )
    | no ne ↦ (c, get_elem?-set_ne es _ ne ∙ cat, al, begins, sizes)
  ]

  -- Another entry for the same segment, with the same mapping and a count of its own.
  pub record SameMapping (me me' : MmapEntry) : Type 0 where
    pub addr : me'.addr ≡ me.addr
    pub mapped_addr : me'.mapped_addr ≡ me.mapped_addr
    pub mapped_size : me'.mapped_size ≡ me.mapped_size
    pub counted : IsNatural me'.ref_count

  module _ (l : List ℕ) (m : HomeManager) (p : Pending h l m) (i : ℕ) (ce : Slot)
      (at : get_elem? m.cs.entries i ≡ some ce) (al : ce.allocated ≡ true) where
    rewritten-SlotFits :
        (me : MmapEntry)
        → SameMapping ce.entry me
        → IsFor h ce.key me
        → SlotFits h l m.mappings i (record ce { entry = me })
    rewritten-SlotFits me s f =
        let old = p.slots i ce at in
        record {
          used = λ _. f;
          settled = λ _ n.
              let (there, back) = old.settled al n in
              (s.mapped_addr ∙ there ∙ sym s.addr, subst (Backs h m.mappings) (sym s.addr) back);
          mapped = still old.mapped;
          counted = s.counted;
          unused = λ e. absurd (true≢false (sym al ∙ e));
        }
      where
        still : HasMapped h ce.entry → HasMapped h me
        still (inl z) = inl (s.mapped_addr ∙ z)
        still (inr (is, size)) = inr (
          subst IsSegment (sym s.mapped_addr) is,
          s.mapped_size ∙ size ∙ ap size_of (sym s.mapped_addr),
        )

    -- What the order says of a slot it says of the one before the write.
    rewritten_slot :
        (me : MmapEntry)
        → SameMapping ce.entry me
        → (k : ℕ) (c : Slot) → get_elem? (set m.cs.entries i (record ce { entry = me })) k ≡ some c
        → (d : Slot) × (get_elem? m.cs.entries k ≡ some d)
          × (c.allocated ≡ d.allocated)
          × (c.entry.addr ≡ d.entry.addr)
          × (c.entry.mapped_addr ≡ d.entry.mapped_addr)
    rewritten_slot me s k c cat =
        elim (get-set-cases m.cs.entries i ce (record ce { entry = me }) at k c cat) [
          | inl (e, same) ↦ (
            ce,
            ap (get_elem? m.cs.entries) (sym e) ∙ at,
            ap (λ (x : Slot). x.allocated) (sym same),
            ap (λ (x : Slot). x.entry.addr) (sym same) ∙ s.addr,
            ap (λ (x : Slot). x.entry.mapped_addr) (sym same) ∙ s.mapped_addr,
          )
          | inr (ne, same) ↦ (c, same, refl, refl, refl)
        ]

    pub wrote-Pending :
        (me : MmapEntry)
        → SameMapping ce.entry me
        → IsFor h ce.key me
        → Pending h l (wrote i ce me m)
    wrote-Pending me s f = record {
      inv = set-Inv i ce me m.cs at p.inv;
      slots = λ j c cat.
          elim (get-set-cases m.cs.entries i ce (record ce { entry = me }) at j c cat) [
            | inl (e, same) ↦
                subst (λ (x : Slot). SlotFits h l m.mappings j x) same
                  (subst (λ k. SlotFits h l m.mappings k (record ce { entry = me })) e
                    (rewritten-SlotFits me s f))
            | inr (ne, old) ↦ p.slots j c old
          ];
      order = λ k j c d cat dat ne ca there.
          let (c', cat', c_al, c_addr, c_map) = rewritten_slot me s k c cat in
          let (d', dat', d_al, d_addr, d_map) = rewritten_slot me s j d dat in
          p.order k j c' d' cat' dat' ne (sym c_al ∙ ca) (sym d_map ∙ there ∙ c_addr);
      waiting = λ j w. set-Waiting m.cs.entries i ce me j at (p.waiting j w);
      tlb =
          Every-map (SlotFor h m.cs.entries) _ m.cs.outer.entries
            (λ sp j. set-SlotFor m.cs.entries i ce me sp j at s.addr) p.tlb;
    }

    pub listed-Pending :
        Pending h
          (l ++ (i ∷ []))
          (record m { home_segments_to_map = m.home_segments_to_map ++ (i ∷ []) })
    listed-Pending = record {
      inv = p.inv;
      slots = λ j c cat.
          let old = p.slots j c cat in
          record {
            used = old.used;
            settled = λ a n. old.settled a (ground (arith, listed-append j i l, n));
            mapped = old.mapped;
            counted = old.counted;
            unused = λ f.
                let (z, n) = old.unused f in
                (z, ground (arith, listed-append j i l, n, other j c cat f));
          };
      order = λ k j c d cat dat ne ca there.
          let (li, bi) = p.order k j c d cat dat ne ca there in
          (ground (arith, listed-append k i l, li), before-append j k i l bi);
      waiting = λ j w. elim (ℕ_discrete i j) [
        | yes e ↦ (ce, ap (get_elem? m.cs.entries) (sym e) ∙ at, al)
        | no ne ↦ p.waiting j (ground (arith, listed-append j i l, w, ne))
      ];
      tlb = p.tlb;
    }
      where
        other : (j : ℕ) (c : Slot) → get_elem? m.cs.entries j ≡ some c → c.allocated ≡ false → i ≢ j
        other j c cat f e = true≢false (
            sym al
            ∙ ap (λ (x : Slot). x.allocated)
                (some-injective ce c (sym at ∙ ap (get_elem? m.cs.entries) e ∙ cat))
            ∙ f)

  pub tlb-Pending :
      (l : List ℕ) (t : Tlb Span ℕ) (m : HomeManager)
      → Every (SlotFor h m.cs.entries) t.entries
      → Pending h l m
      → Pending h l (with_tlb t m)
  tlb-Pending l t m e p = record {
    inv = record { backed = p.inv.backed; listed = p.inv.listed; lru_once = p.inv.lru_once };
    slots = p.slots;
    order = p.order;
    waiting = p.waiting;
    tlb = e;
  }
