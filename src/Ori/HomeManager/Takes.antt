-- ===== src/Ori/HomeManager/Takes.antt =====
-- include/ityr/ori/home_manager.hpp: checkout_seg of a segment that is not cached takes a slot.
use itoyori.Prelude.{
  IsNatural, IsPositive, zero-not_positive, ℕ, ◌/◌, ◌≡◌, ◌≢◌, refl, sym, ap, subst, ◌∙◌, ◌⊎◌, inl,
  inr, Bool, true, false, List, [], ◌∷◌, ◌++◌, some, arith, get_elem?, set, ◌==◌, Bool-cases,
  get_elem?-set_ne,
}
use native.Mathlib.Decide.{ℕ_discrete}
use mathlib.Core.Bool.{true≢false}
use mathlib.Core.Option.{some-injective, none-ne-some}
use itoyori.Ori.Tlb.{Tlb}
use itoyori.Ori.Tlb.Members.{Every, Every-map, clear-Every}
use itoyori.Ori.CacheSystem.{CacheSystem, ok, ensure_cached, find}
use itoyori.Ori.CacheSystem.Invariant.{Inv}
use itoyori.Ori.CacheSystem.Served.{Taken}
use itoyori.Ori.HomeManager.{
  MmapEntry, mmap_entry, mmap_on_cache_map, HomeManager, Span, checkout_seg,
}
use itoyori.Ori.HomeManager.Backing.{HomeSegments}
use itoyori.Ori.HomeManager.Writes.{Slot, wrote, set-Inv, get-set-cases}
use itoyori.Ori.HomeManager.Slots.{requested, checkout_seg-miss}
use itoyori.Ori.HomeManager.Pending.{
  listed, before, listed-append, before-append, before-new, before-listed, HasMapped, SlotFits,
  SlotFor, Waiting, Pending, Held, slot_found,
}
use itoyori.Ori.HomeManager.Completed.{IsPending}
use itoyori.Ori.HomeManager.Requests.{
  Pinned, CheckedOut, Outcome, counted-IsPositive, counted-IsNatural, cached-Holds, done, at_done,
  done-Held, done-IsPending, done-Pinned,
}

module _ {block_size : ℕ} (h : HomeSegments block_size) where
  open h use {IsSegment, size_of, pm_of, offset_of}

  module _ (inc : Bool) (a : ℕ) (ia : IsSegment a) (m : HomeManager) (p : IsPending h m)
      (pin : Pinned h m) (i : ℕ) (cs' : CacheSystem mmap_entry)
      (ran : ensure_cached true (a / block_size) m.cs ≡ ok (i, cs')) (v : Inv cs')
      (found : find (a / block_size) cs'.table ≡ some i)
      (t : Taken (a / block_size) i m.cs cs') where
    abbrev given : Slot
    given = record { allocated = true; key = a / block_size; entry = mmap_on_cache_map i t.entry }

    abbrev me : MmapEntry
    me = requested inc a (size_of a) (pm_of a) (offset_of a) i (mmap_on_cache_map i t.entry)

    abbrev now : Slot
    now = record given { entry = me }

    abbrev l : List ℕ
    l = m.home_segments_to_map

    abbrev es : List Slot
    es = set cs'.entries i now

    -- A slot that is given does not wait.
    not_listed : listed i l ≡ false
    not_listed = elim (Bool-cases (listed i l)) [
      | inr n ↦ n
      | inl w ↦ elim t.from [
        | inl (free, e, o) ↦ ((p.slots i t.old t.at).unused free).1
        | inr (used, ev, e, o) ↦
            absurd (zero-not_positive t.old.entry.ref_count (pin i t.old w t.at) ev)
      ]
    ]

    same_mapped :
        (t.entry.mapped_addr ≡ t.old.entry.mapped_addr)
        × (t.entry.mapped_size ≡ t.old.entry.mapped_size)
    same_mapped = elim t.from [
      | inl (free, e, o) ↦
          (ap (λ (x : MmapEntry). x.mapped_addr) e, ap (λ (x : MmapEntry). x.mapped_size) e)
      | inr (used, ev, e, o) ↦
          (ap (λ (x : MmapEntry). x.mapped_addr) e, ap (λ (x : MmapEntry). x.mapped_size) e)
    ]

    now-HasMapped : HasMapped h me
    now-HasMapped = elim (p.slots i t.old t.at).mapped [
      | inl z ↦ inl (same_mapped.0 ∙ z)
      | inr (is, size) ↦ inr (
        subst IsSegment (sym same_mapped.0) is,
        same_mapped.1 ∙ size ∙ ap size_of (sym same_mapped.0),
      )
    ]

    -- What a slot has after the checkout.
    slot-cases :
        (j : ℕ) (c : Slot)
        → get_elem? es j ≡ some c
        → ((i ≡ j) × (now ≡ c)) ⊎ ((i ≢ j) × (get_elem? m.cs.entries j ≡ some c))
    slot-cases j c cat = elim (get-set-cases cs'.entries i given now t.now j c cat) [
      | inl new ↦ inl new
      | inr (ne, old) ↦ inr (ne, sym (t.elsewhere j ne) ∙ old)
    ]

    natural : IsNatural t.entry.ref_count
    natural = elim t.from [
      | inl (free, e, o) ↦
          subst (λ (x : MmapEntry). IsNatural x.ref_count) (sym e) (p.slots i t.old t.at).counted
      | inr (used, ev, e, o) ↦
          subst (λ (x : MmapEntry). IsNatural x.ref_count) (sym e) (p.slots i t.old t.at).counted
    ]

    now-SlotFits : SlotFits h (l ++ (i ∷ [])) m.mappings i now
    now-SlotFits = record {
      used = λ _. record {
        is_segment = ia;
        keyed = refl;
        sized = refl;
        in_pm = refl;
        at_offset = refl;
      };
      settled = λ _ n. absurd (ground (arith, listed-append i i l, n));
      mapped = now-HasMapped;
      counted = counted-IsNatural h inc t.entry natural;
      unused = λ e. absurd (true≢false e);
    }

    other-SlotFits :
        (j : ℕ) (c : Slot)
        → i ≢ j
        → get_elem? m.cs.entries j ≡ some c
        → SlotFits h (l ++ (i ∷ [])) m.mappings j c
    other-SlotFits j c ne cat =
        let old = p.slots j c cat in
        record {
          used = old.used;
          settled = λ al n. old.settled al (ground (arith, listed-append j i l, n));
          mapped = old.mapped;
          counted = old.counted;
          unused =
              λ f. let (z, n) = old.unused f in (z, ground (arith, listed-append j i l, n, ne));
        }

    -- A slot that has the segment mapped waits for another one.
    stale :
        (j : ℕ) (d : Slot)
        → get_elem? m.cs.entries j ≡ some d
        → d.entry.mapped_addr ≡ a
        → listed j l ≡ true
    stale j d dat there = elim (Bool-cases (listed j l)) [
      | inl w ↦ w
      | inr n ↦ elim (Bool-cases d.allocated) [
        | inl al ↦ absurd (
            none-ne-some j (
              sym t.absent
              ∙ ap (λ x. find (x / block_size) m.cs.table)
                  (sym there ∙ ((p.slots j d dat).settled al n).0)
              ∙ slot_found h l m p j d dat al))
        | inr free ↦
            absurd (omega (arith, h.positive a ia, there, ((p.slots j d dat).unused free).0))
      ]
    ]

    taken-order :
        (k j : ℕ) (c d : Slot)
        → get_elem? es k ≡ some c
        → get_elem? es j ≡ some d
        → j ≢ k
        → c.allocated ≡ true
        → d.entry.mapped_addr ≡ c.entry.addr
        → (listed k (l ++ (i ∷ [])) ≡ true) × (before j k (l ++ (i ∷ [])) ≡ true)
    taken-order k j c d cat dat ne ca there = elim (slot-cases k c cat) [
      | inl (ek, same_c) ↦ elim (slot-cases j d dat) [
        | inl (ej, same_d) ↦ absurd (ne (sym ej ∙ ek))
        | inr (nj, old_d) ↦
            let w = stale j d old_d (there ∙ ap (λ (x : Slot). x.entry.addr) (sym same_c)) in
            (
              ground (arith, listed-append k i l, ek),
              before-append j k i l
                  (before-new j k l w (subst (λ x. listed x l ≡ false) ek not_listed)),
            )
      ]
      | inr (nk, old_c) ↦ elim (slot-cases j d dat) [
        | inl (ej, same_d) ↦
            let o =
              p.order k i c t.old old_c t.at nk ca
                (sym same_mapped.0 ∙ ap (λ (x : Slot). x.entry.mapped_addr) same_d ∙ there) in
            absurd (true≢false (sym (before-listed i k l o.1) ∙ not_listed))
        | inr (nj, old_d) ↦
            let o = p.order k j c d old_c old_d ne ca there in
            (ground (arith, listed-append k i l, o.0), before-append j k i l o.1)
      ]
    ]

    kept_elsewhere : (j : ℕ) → i ≢ j → get_elem? es j ≡ get_elem? m.cs.entries j
    kept_elsewhere j ne = get_elem?-set_ne cs'.entries now ne ∙ t.elsewhere j ne

    other-SlotFor :
        (s : Span) (j : ℕ) → t.old.allocated ≡ false → SlotFor h m.cs.entries s j → SlotFor h es s j
    unfolding SlotFor
    other-SlotFor s j free (c, cat, al, there, size) =
        (c, kept_elsewhere j ne ∙ cat, al, there, size)
      where
        ne : i ≢ j
        ne e = true≢false (
            sym al
            ∙ ap (λ (x : Slot). x.allocated)
                (some-injective c t.old
                  (sym cat ∙ ap (λ x. get_elem? m.cs.entries x) (sym e) ∙ t.at))
            ∙ free)

    taken_tlb : Every (SlotFor h es) cs'.outer.entries
    taken_tlb = elim t.from [
      | inl (free, e, o) ↦
          subst (λ (t : Tlb Span ℕ). Every (SlotFor h es) t.entries) (sym o)
            (Every-map (SlotFor h m.cs.entries) (SlotFor h es) m.cs.outer.entries
              (λ s j. other-SlotFor s j free) p.tlb)
      | inr (used, ev, e, o) ↦
          subst (λ (t : Tlb Span ℕ). Every (SlotFor h es) t.entries) (sym o)
            (clear-Every (SlotFor h es) m.cs.outer)
    ]

    count : inc ≡ true → IsPositive me.ref_count
    count = counted-IsPositive h inc t.entry natural

    taken_waits : (j : ℕ) → listed j (l ++ (i ∷ [])) ≡ true → Waiting h es j
    taken_waits j w = elim (ℕ_discrete i j) [
      | yes e ↦ (
        now,
        ap (get_elem? es) (sym e) ∙ at_done h inc a m i cs' l given me found t.now refl refl count,
        refl,
      )
      | no ne ↦
          let (c, cat, al) = p.waiting j (ground (arith, listed-append j i l, ne, w)) in
          (c, kept_elsewhere j ne ∙ cat, al)
    ]

    taken-Pending :
        Pending h
          (l ++ (i ∷ []))
          (wrote i given me (record m { cs = cs'; home_segments_to_map = l ++ (i ∷ []) }))
    taken-Pending = record {
      inv = set-Inv i given me cs' t.now v;
      slots = λ j c cat. elim (slot-cases j c cat) [
        | inl (e, same) ↦
            subst (λ (x : Slot). SlotFits h (l ++ (i ∷ [])) m.mappings j x) same
              (subst (λ k. SlotFits h (l ++ (i ∷ [])) m.mappings k now) e now-SlotFits)
        | inr (ne, old) ↦ other-SlotFits j c ne old
      ];
      order = taken-order;
      waiting = taken_waits;
      tlb = taken_tlb;
    }

    -- A slot that is held is not taken.
    Held-apart : (b : ℕ) (q : Held h true b m) → i ≢ q.idx
    Held-apart b q e = elim t.from [
      | inl (free, x, o) ↦ true≢false (sym q.allocated ∙ ap (λ (c : Slot). c.allocated) same ∙ free)
      | inr (used, ev, x, o) ↦
          zero-not_positive t.old.entry.ref_count
            (subst (λ (c : Slot). IsPositive c.entry.ref_count) same (q.referred refl)) ev
    ]
      where
        same : q.slot ≡ t.old
        same = some-injective q.slot t.old (sym q.at ∙ ap (get_elem? m.cs.entries) (sym e) ∙ t.at)

    pub Taken-Outcome :
        Outcome h inc a m (checkout_seg block_size true inc a (size_of a) (pm_of a) (offset_of a) m)
    Taken-Outcome = elim (Bool-cases (a == t.entry.mapped_addr)) [
      | inl e ↦
          absurd (true≢false (sym (stale i t.old t.at (sym same_mapped.0 ∙ same e)) ∙ not_listed))
      | inr e ↦
          subst (Outcome h inc a m)
            (sym (
              checkout_seg-miss inc a (size_of a) (pm_of a) (offset_of a) i block_size m cs' given
                ran t.now e))
            checked_out
    ]
      where
        same : {b : ℕ} → (a == b) ≡ true → b ≡ a
        same e = ground (arith, e)

        checked_out :
            CheckedOut h inc a m
              (done h inc a m i cs' (l ++ (i ∷ [])) given me found t.now refl refl count)
        checked_out = record {
          pending =
              done-IsPending h inc a m i cs' (l ++ (i ∷ [])) given me found t.now refl refl count
                taken-Pending;
          held = done-Held h inc a m i cs' (l ++ (i ∷ [])) given me found t.now refl refl count;
          pinned =
              done-Pinned h inc a m i cs' (l ++ (i ∷ [])) given me found t.now refl refl count pin
                (λ j ne w. ground (arith, listed-append j i l, ne, w)) t.elsewhere;
          others = λ b q.
              let (f, qat) = cached-Holds h true (a / block_size) b i m cs' p.inv ran q in
              record {
                idx = q.idx;
                slot = q.slot;
                found = f;
                at = kept_elsewhere q.idx (Held-apart b q) ∙ q.at;
                allocated = q.allocated;
                there = q.there;
                referred = q.referred;
              };
        }
