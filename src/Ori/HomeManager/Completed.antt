-- ===== src/Ori/HomeManager/Completed.antt =====
-- include/ityr/ori/home_manager.hpp: after checkout_complete nothing waits, and what was held is backed.
use itoyori.Prelude.{
  IsPositive, ℕ, ◌≡◌, refl, sym, ap, subst, ◌∙◌, Bool, true, List, [], ◌∷◌, some, arith, get_elem?,
  get_elem?-set_self, get_elem?-set_ne,
}
use native.Mathlib.Decide.{ℕ_discrete}
use mathlib.Core.Option.{some-injective}
use itoyori.Ori.CacheSystem.Invariant.{get_elem?-lt}
use itoyori.Ori.HomeManager.{
  MmapEntry, HomeManager, Mapping, with_entry, update_mapping, map_entries, checkout_complete,
}
use itoyori.Ori.HomeManager.Backing.{HomeSegments, Backs}
use itoyori.Ori.HomeManager.Writes.{Slot, wrote}
use itoyori.Ori.HomeManager.Slots.{with_entry-at, remapped}
use itoyori.Ori.HomeManager.Pending.{listed, Pending, Held}
use itoyori.Ori.HomeManager.Completion.{arrived, update_mapping-at, step-Pending}

module _ {block_size : ℕ} (h : HomeSegments block_size) where
  open h use {IsSegment, size_of, pm_of, offset_of}

  -- A write that keeps the address, and a positive count positive, keeps what is held.
  pub wrote-Held :
      (inc : Bool) (a i : ℕ) (ce : Slot) (me : MmapEntry) (m : HomeManager)
      → get_elem? m.cs.entries i ≡ some ce
      → me.addr ≡ ce.entry.addr
      → (IsPositive ce.entry.ref_count → IsPositive me.ref_count)
      → Held h inc a m
      → Held h inc a (wrote i ce me m)
  wrote-Held inc a i ce me m at same more q = elim (ℕ_discrete i q.idx) [
    | yes e ↦
        let is_ce =
          some-injective q.slot ce (sym q.at ∙ ap (get_elem? m.cs.entries) (sym e) ∙ at) in
        record {
          idx = i;
          slot = record ce { entry = me };
          found = q.found ∙ ap some (sym e);
          at = get_elem?-set_self m.cs.entries i _ (get_elem?-lt m.cs.entries i ce at);
          allocated = subst (λ (c : Slot). c.allocated ≡ true) is_ce q.allocated;
          there = same ∙ subst (λ (c : Slot). c.entry.addr ≡ a) is_ce q.there;
          referred = λ t.
              let r = subst (λ (c : Slot). IsPositive c.entry.ref_count) is_ce (q.referred t) in
              more r;
        }
    | no ne ↦ record {
      idx = q.idx;
      slot = q.slot;
      found = q.found;
      at = get_elem?-set_ne m.cs.entries _ ne ∙ q.at;
      allocated = q.allocated;
      there = q.there;
      referred = q.referred;
    }
  ]

  pub mappings-Held :
      (inc : Bool) (a : ℕ) (m : HomeManager) (log : List Mapping)
      → Held h inc a m
      → Held h inc a (record m { mappings = log })
  mappings-Held inc a m log q = record {
    idx = q.idx;
    slot = q.slot;
    found = q.found;
    at = q.at;
    allocated = q.allocated;
    there = q.there;
    referred = q.referred;
  }

  is_first : (i : ℕ) (l : List ℕ) → listed i (i ∷ l) ≡ true
  unfolding listed
  is_first i l = ground arith

  step-eq :
      (i : ℕ) (ce : Slot) (m : HomeManager)
      → get_elem? m.cs.entries i ≡ some ce
      → with_entry i m (λ me. update_mapping i me m)
        ≡ wrote i ce (arrived ce.entry) (record m { mappings = remapped ce.entry m.mappings })
  step-eq i ce m at =
      with_entry-at i ce m (λ me. update_mapping i me m) at ∙ update_mapping-at i ce m at

  -- Nothing waits, and the same segments are held as before.
  record Mapped (m m' : HomeManager) : Type 0 where
    settled : Pending h [] m'
    holds : (inc : Bool) (a : ℕ) → Held h inc a m → Held h inc a m'

  map_entries-Mapped : (l : List ℕ) (m : HomeManager) → Pending h l m → Mapped m (map_entries l m)
  unfolding map_entries
  map_entries-Mapped [] m p = record { settled = p; holds = λ inc a q. q }
  map_entries-Mapped (i ∷ l) m p =
      let (ce, at, al) = p.waiting i (is_first i l) in
      let rest =
        map_entries-Mapped l
          (wrote i ce (arrived ce.entry) (record m { mappings = remapped ce.entry m.mappings }))
          (step-Pending h l i m p ce at al) in
      subst (λ m1. Mapped m (map_entries l m1)) (sym (step-eq i ce m at))
        (record {
          settled = rest.settled;
          holds = λ inc a q. rest.holds inc a (
              wrote-Held inc a i ce (arrived ce.entry)
                (record m { mappings = remapped ce.entry m.mappings }) at refl (λ n. n)
                (mappings-Held inc a m _ q));
        })

  -- A manager with its list.
  abbrev pub IsPending : HomeManager → Type 0
  IsPending m = Pending h m.home_segments_to_map m

  pub checkout_complete-IsPending :
      (m : HomeManager) → IsPending m → IsPending (checkout_complete block_size true m)
  unfolding checkout_complete
  checkout_complete-IsPending m p =
      let q = (map_entries-Mapped m.home_segments_to_map m p).settled in
      record { inv = q.inv; slots = q.slots; order = q.order; waiting = q.waiting; tlb = q.tlb }

  pub checkout_complete-Held :
      (inc : Bool) (a : ℕ) (m : HomeManager)
      → IsPending m
      → Held h inc a m
      → Held h inc a (checkout_complete block_size true m)
  unfolding checkout_complete
  checkout_complete-Held inc a m p q =
      let r = (map_entries-Mapped m.home_segments_to_map m p).holds inc a q in
      record {
        idx = r.idx;
        slot = r.slot;
        found = r.found;
        at = r.at;
        allocated = r.allocated;
        there = r.there;
        referred = r.referred;
      }

  pub checkout_complete-empty :
      (m : HomeManager) → (checkout_complete block_size true m).home_segments_to_map ≡ []
  unfolding checkout_complete
  checkout_complete-empty m = refl

  -- Each byte of a held segment has its place behind it when nothing waits.
  pub Held-Backs :
      (inc : Bool) (a : ℕ) (m : HomeManager)
      → IsPending m
      → m.home_segments_to_map ≡ []
      → Held h inc a m
      → IsSegment a × Backs h m.mappings a
  unfolding listed
  Held-Backs inc a m p e q =
      let s = p.slots q.idx q.slot q.at in
      (
        subst IsSegment q.there (s.used q.allocated).is_segment,
        subst (Backs h m.mappings) q.there (s.settled q.allocated (ap (listed q.idx) e)).1,
      )
