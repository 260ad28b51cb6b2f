-- ===== src/Ori/HomeManager/Runs.antt =====
-- include/ityr/ori/home_manager.hpp: what holds in each state that checkouts and checkins lead to, from
-- a new manager on.
use itoyori.Prelude.{
  ℕ, ◌+◌, ◌-◌, ◌/◌, ◌≤◌, ◌<◌, ◌≡◌, refl, ap, ◌∙◌, Bool, true, false, List, [], ◌∷◌, Option, none,
  some, arith,
}
use Prim.{Unit, tt}
use itoyori.Ori.CacheSystem.{find}
use itoyori.Ori.CacheSystem.Slots.{AllBusy}
use itoyori.Ori.HomeManager.{HomeManager, Mapping, checkout_seg, checkout_complete, checkout_fast}
use itoyori.Ori.HomeManager.Backing.{HomeSegments, Backs, backing}
use itoyori.Ori.HomeManager.Reaches.{Reached, AllHeld, Good, asked-Good, Reached-Good}
use itoyori.Ori.HomeManager.Pending.{listed, Held}
use itoyori.Ori.HomeManager.Completed.{
  IsPending, checkout_complete-IsPending, checkout_complete-Held, checkout_complete-empty,
  Held-Backs,
}
use itoyori.Ori.HomeManager.Requests.{Outcome}
use itoyori.Ori.HomeManager.Checkouts.{checkout_seg-Outcome}
use itoyori.Ori.HomeManager.Lookups.{FastOut, checkout_fast-FastOut}

module _ {block_size : ℕ} (h : HomeSegments block_size) where
  open h use {IsSegment, size_of, pm_of, offset_of}

  -- The segments are cached and referred to, and have their physical memory behind them.
  unfoldable pub AllBacked : List ℕ → HomeManager → Type 0
  AllBacked [] m = Unit {0}
  AllBacked (a ∷ asked) m = (Held h true a m × Backs h m.mappings a) × AllBacked asked m

  AllHeld-AllBacked :
      (asked : List ℕ) (m : HomeManager)
      → IsPending h m
      → AllHeld h asked m
      → AllBacked asked (checkout_complete block_size true m)
  unfolding AllHeld AllBacked
  AllHeld-AllBacked [] m p q = tt
  AllHeld-AllBacked (a ∷ asked) m p q =
      let held = checkout_complete-Held h true a m p q.0 in
      (
        (
          held,
          (Held-Backs h true a _ (checkout_complete-IsPending h m p) (checkout_complete-empty h m)
              held).1,
        ),
        AllHeld-AllBacked asked m p q.1,
      )

  -- A checkout that dies, or the manager once it is completed.
  abbrev pub Checked : List ℕ → ℕ → HomeManager → Option HomeManager → Type 0
  Checked asked a m none = (find (a / block_size) m.cs.table ≡ none) × AllBusy m.cs m.cs.lru
  Checked asked a m (some m1) = AllBacked (a ∷ asked) (checkout_complete block_size true m1)

  Outcome-Checked :
      (asked : List ℕ) (a : ℕ) (m : HomeManager) (o : Option HomeManager)
      → Good h asked m
      → Outcome h true a m o
      → Checked asked a m o
  Outcome-Checked asked a m none g o = o
  Outcome-Checked asked a m (some m1) g o =
      let g1 = asked-Good h asked a m m1 o g in AllHeld-AllBacked (a ∷ asked) m1 g1.pending g1.held

  -- In each state that checkouts and checkins of home segments lead to from a new manager, over
  -- aligned segments that do not overlap, where what is under way are counted checkouts, an
  -- uncounted one is completed at once and a segment is checked in while none is under way, it is
  -- cached and a count that is taken down is positive: a counted checkout_seg of a segment either
  -- dies, and then the segment is not cached and every slot of the LRU list is allocated and
  -- referred to (or out of the vector), or after checkout_complete each segment whose checkout
  -- was under way, this one too, is cached with a positive reference count, and each of its bytes
  -- has its place in the physical memory behind it.
  pub checkout_seg-Checked :
      {asked : List ℕ} {m : HomeManager} (a : ℕ)
      → Reached h asked m
      → IsSegment a
      → Checked asked a m
          (checkout_seg block_size true true a (size_of a) (pm_of a) (offset_of a) m)
  checkout_seg-Checked {asked} {m} a r ia =
      let g = Reached-Good h r in
      Outcome-Checked asked a m _ g (checkout_seg-Outcome h true a m ia g.pending g.pinned)

  -- Each byte of the range has the place of its segment behind it.
  abbrev pub RangeBacked : ℕ → ℕ → List Mapping → Type 0
  RangeBacked addr size log =
      (a : ℕ) × IsSegment a
      × (a ≤ addr)
      × (addr + size ≤ a + size_of a)
      × ((x : ℕ)
          → addr ≤ x
          → x < addr + size
          → backing log x ≡ some (pm_of a, offset_of a + (x - a)))

  abbrev pub FastBacked : ℕ → ℕ → Bool × HomeManager → Type 0
  FastBacked addr size (true, m) = RangeBacked addr size m.mappings
  FastBacked addr size (false, m) = Unit {0}

  Fast-FastBacked :
      (addr size : ℕ) (m : HomeManager) (r : Bool × HomeManager)
      → m.home_segments_to_map ≡ []
      → FastOut h addr size m r
      → FastBacked addr size r
  unfolding listed
  Fast-FastBacked addr size m (false, m2) e f = tt
  Fast-FastBacked addr size m (true, m2) e (k, (i, s)) =
      let fits = k.same.pending.slots i s.slot s.at in
      let back = (fits.settled s.allocated (ap (listed i) (k.same.same_list ∙ e))).1 in
      (
        s.slot.entry.addr,
        (fits.used s.allocated).is_segment,
        s.low,
        s.high,
        λ x l r. back x (omega (arith, s.low, l)) (omega (arith, s.high, r)),
      )

  -- In each state of a home manager that checkouts and checkins lead to from a new one, over
  -- aligned segments that do not overlap, where a checkin takes down only a positive count and no
  -- checkout is under way, a range for which checkout_fast succeeds lies in a segment, and each
  -- of its bytes has its place in the physical memory of that segment behind it.
  pub checkout_fast-FastBacked :
      {m : HomeManager} (inc : Bool) (addr size : ℕ)
      → Reached h [] m
      → FastBacked addr size (checkout_fast block_size true inc addr size m)
  checkout_fast-FastBacked {m} inc addr size r =
      let g = Reached-Good h r in
      Fast-FastBacked addr size m _ (g.settled refl)
        (checkout_fast-FastOut h inc addr size m g.pending)
