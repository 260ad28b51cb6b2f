-- ===== src/Ori/HomeManager/Reaches.antt =====
-- include/ityr/ori/home_manager.hpp: the states that checkouts and checkins lead to, from a new manager on.
use itoyori.Prelude.{
  ℕ, zero, suc, ◌/◌, ◌≡◌, refl, sym, ap, subst, ◌∙◌, inl, Bool, true, false, List, [], ◌∷◌, some,
  get_elem?,
}
use Prim.{Unit, tt}
use mathlib.Core.Bool.{true≢false}
use mathlib.Core.Option.{some-injective, none-ne-some}
use itoyori.Ori.Tlb.Members.{empty-Every}
use itoyori.Ori.CacheSystem.{find, init, blank}
use itoyori.Ori.CacheSystem.Invariant.{init-Inv}
use itoyori.Ori.HomeManager.{
  HomeManager, mmap_entry, new_home_manager, new_entry, checkout_seg, checkout_complete,
  checkout_fast, checkin_fast, checkin_seg,
}
use itoyori.Ori.HomeManager.Backing.{HomeSegments}
use itoyori.Ori.HomeManager.Writes.{Slot}
use itoyori.Ori.HomeManager.Pending.{listed, SlotFits, SlotFor, Held}
use itoyori.Ori.HomeManager.Completed.{
  IsPending, checkout_complete-IsPending, checkout_complete-empty,
}
use itoyori.Ori.HomeManager.Requests.{Pinned, CheckedOut, Outcome}
use itoyori.Ori.HomeManager.Checkouts.{checkout_seg-Outcome}
use itoyori.Ori.HomeManager.Lookups.{
  Same, Kept, FastOut, checkout_fast-FastOut, checkin_fast-Same, Referred, FastReferred, CheckedIn,
  checkin_seg-CheckedIn,
}

module _ {block_size : ℕ} (h : HomeSegments block_size) where
  open h use {IsSegment, size_of, pm_of, offset_of}

  -- The states of a manager, with the segments that the checkout under way has asked for. A segment
  -- that is not counted is checked out alone. A segment is checked in while it is cached, and its count
  -- is taken down while it is positive.
  pub data Reached : List ℕ → HomeManager → Type 0 where
    new : (mmap_entry_limit n_tlb : ℕ) → Reached [] (new_home_manager mmap_entry_limit n_tlb)
    ask :
        {asked : List ℕ} {m m1 : HomeManager} (a : ℕ)
        → Reached asked m
        → IsSegment a
        → checkout_seg block_size true true a (size_of a) (pm_of a) (offset_of a) m ≡ some m1
        → Reached (a ∷ asked) m1
    ask_once :
        {m m1 : HomeManager} (a : ℕ)
        → Reached [] m
        → IsSegment a
        → checkout_seg block_size true false a (size_of a) (pm_of a) (offset_of a) m ≡ some m1
        → Reached [] (checkout_complete block_size true m1)
    ask_fast :
        {asked : List ℕ} {m : HomeManager} (inc : Bool) (addr size : ℕ)
        → Reached asked m
        → Reached asked (checkout_fast block_size true inc addr size m).1
    complete :
        {asked : List ℕ} {m : HomeManager}
        → Reached asked m
        → Reached [] (checkout_complete block_size true m)
    in_fast :
        {m : HomeManager} (dec : Bool) (addr size : ℕ)
        → Reached [] m
        → (dec ≡ true → FastReferred h addr size m)
        → Reached [] (checkin_fast block_size true dec addr size m).1
    in_seg :
        {m m1 : HomeManager} (dec : Bool) (a i : ℕ)
        → Reached [] m
        → find (a / block_size) m.cs.table ≡ some i
        → (dec ≡ true → Referred h m i)
        → checkin_seg block_size true dec a m ≡ some m1
        → Reached [] m1

  new-SlotFits :
      (n k i : ℕ) (ce : Slot)
      → get_elem? (blank {C = mmap_entry} new_entry n) i ≡ some ce
      → SlotFits h [] [] k ce
  unfolding blank listed
  new-SlotFits zero k i ce at = absurd (none-ne-some ce at)
  new-SlotFits (suc n) k zero ce at = subst (SlotFits h [] [] k) (some-injective _ ce at) (record {
    used = λ e. absurd (true≢false (sym e));
    settled = λ e. absurd (true≢false (sym e));
    mapped = inl refl;
    counted = tt;
    unused = λ _. (refl, refl);
  })
  new-SlotFits (suc n) k (suc i) ce at = new-SlotFits n k i ce at

  new_free :
      (n i : ℕ) (ce : Slot)
      → get_elem? (blank {C = mmap_entry} new_entry n) i ≡ some ce
      → ce.allocated ≡ false
  unfolding blank
  new_free zero i ce at = absurd (none-ne-some ce at)
  new_free (suc n) zero ce at = ap (λ (x : Slot). x.allocated) (sym (some-injective _ ce at))
  new_free (suc n) (suc i) ce at = new_free n i ce at

  unfoldable pub AllHeld : List ℕ → HomeManager → Type 0
  AllHeld [] m = Unit {0}
  AllHeld (a ∷ asked) m = Held h true a m × AllHeld asked m

  AllHeld-map :
      (asked : List ℕ) (m m1 : HomeManager)
      → ((b : ℕ) → Held h true b m → Held h true b m1)
      → AllHeld asked m
      → AllHeld asked m1
  unfolding AllHeld
  AllHeld-map [] m m1 f q = tt
  AllHeld-map (a ∷ asked) m m1 f q = (f a q.0, AllHeld-map asked m m1 f q.1)

  pub record Good (asked : List ℕ) (m : HomeManager) : Type 0 where
    pub pending : IsPending h m
    pub settled : asked ≡ [] → m.home_segments_to_map ≡ []
    pub pinned : Pinned h m
    pub held : AllHeld asked m

  -- Nothing waits, so that nothing has to be pinned.
  idle-Good : (m : HomeManager) → IsPending h m → m.home_segments_to_map ≡ [] → Good [] m
  unfolding AllHeld listed
  idle-Good m p e = record {
    pending = p;
    settled = λ _. e;
    pinned = λ i ce w at. absurd (true≢false (sym w ∙ ap (listed i) e));
    held = tt;
  }

  new-Good : (mmap_entry_limit n_tlb : ℕ) → Good [] (new_home_manager mmap_entry_limit n_tlb)
  unfolding init listed
  new-Good n t =
      idle-Good (new_home_manager n t)
        (record {
          inv = init-Inv n new_entry _;
          slots = λ i ce at. new-SlotFits n i i ce at;
          order = λ k j c d cat dat ne al. absurd (true≢false (sym al ∙ new_free n k c cat));
          waiting = λ i w. absurd (true≢false (sym w));
          tlb = empty-Every (SlotFor h (blank new_entry n)) t;
        })
        refl

  Fast-Kept :
      (addr size : ℕ) (m : HomeManager) (r : Bool × HomeManager)
      → FastOut h addr size m r
      → Kept h m r.1
  Fast-Kept addr size m (true, m2) f = f.0
  Fast-Kept addr size m (false, m2) f = f

  Kept-Good : (asked : List ℕ) (m m1 : HomeManager) → Kept h m m1 → Good asked m → Good asked m1
  Kept-Good asked m m1 k g = record {
    pending = k.same.pending;
    settled = λ e. k.same.same_list ∙ g.settled e;
    pinned = k.pinned g.pinned;
    held = AllHeld-map asked m m1 k.held g.held;
  }

  Same-Good : (m m1 : HomeManager) → Same h m m1 → Good [] m → Good [] m1
  Same-Good m m1 s g = idle-Good m1 s.pending (s.same_list ∙ g.settled refl)

  completed-Good : (m : HomeManager) → IsPending h m → Good [] (checkout_complete block_size true m)
  completed-Good m p = idle-Good _ (checkout_complete-IsPending h m p) (checkout_complete-empty h m)

  pub asked-Good :
      (asked : List ℕ) (a : ℕ) (m m1 : HomeManager)
      → CheckedOut h true a m m1
      → Good asked m
      → Good (a ∷ asked) m1
  unfolding AllHeld
  asked-Good asked a m m1 c g = record {
    pending = c.pending;
    settled = λ e. absurd (cc);
    pinned = c.pinned refl;
    held = (c.held, AllHeld-map asked m m1 c.others g.held);
  }

  pub Reached-Good : {asked : List ℕ} {m : HomeManager} → Reached asked m → Good asked m
  Reached-Good (new n t) = new-Good n t
  Reached-Good (ask {asked} {m} {m1} a r ia e) =
      let g = Reached-Good r in
      asked-Good asked a m m1
        (subst (Outcome h true a m) e (checkout_seg-Outcome h true a m ia g.pending g.pinned)) g
  Reached-Good (ask_once {m} {m1} a r ia e) =
      let g = Reached-Good r in
      let c =
        subst (Outcome h false a m) e (checkout_seg-Outcome h false a m ia g.pending g.pinned) in
      completed-Good m1 c.pending
  Reached-Good (ask_fast {asked} {m} inc addr size r) =
      let g = Reached-Good r in
      Kept-Good asked m _
        (Fast-Kept addr size m _ (checkout_fast-FastOut h inc addr size m g.pending)) g
  Reached-Good (complete {asked} {m} r) = completed-Good m (Reached-Good r).pending
  Reached-Good (in_fast {m} dec addr size r q) =
      let g = Reached-Good r in Same-Good m _ (checkin_fast-Same h dec addr size m q g.pending) g
  Reached-Good (in_seg {m} {m1} dec a i r f q e) =
      let g = Reached-Good r in
      Same-Good m m1 (subst (CheckedIn h m) e (checkin_seg-CheckedIn h dec a i m f q g.pending)) g
