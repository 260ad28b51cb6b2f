-- ===== src/Ori/CacheManager/Dirty/Arrival.antt =====
-- `ensure_all_cache_clean` writes each dirty byte back: the fate of one byte, round by round.
use itoyori.Prelude.{ℕ, ◌≡◌, ◌⊎◌, true, false, List, ◌++◌, some, get_elem?}
use itoyori.Ori.BlockRegions.{Regions}
use itoyori.Ori.BlockRegions.Covers.{covers}
use itoyori.Ori.CacheSystem.{CacheSystem}
use itoyori.Ori.CacheManager.{Config, CacheManager, Event}
use itoyori.Ori.CacheManager.Dirty.Rounds.{Slot}
use itoyori.Ori.CacheManager.Dirty.Tracking.{listed}
use itoyori.Ori.CacheManager.Dirty.Written.{Place, written, home}

module _ (g : Config) (i x : ℕ) (p : Place) (old : List Event) where
  -- Where the byte is: still dirty in a block that will be looked at, on its way, or at home.
  abbrev Fate : List ℕ → List ℕ → Regions → List Event → Type 0
  Fate rest wins dirty new =
      ((covers dirty x ≡ true) × (listed i rest ≡ true))
      ⊎ ((written p true new ≡ true) × (listed p.win wins ≡ true))
      ⊎ (written p false new ≡ true)

  -- The block keeps its home, and `new` are the events since `old`.
  record Follows (rest : List ℕ) (entries : List Slot) (wins : List ℕ) (log : List Event)
      : Type 0 where
    slot : Slot
    at : get_elem? entries i ≡ some slot
    there : home g.block_size slot.entry x ≡ p
    new : List Event
    events : log ≡ new ++ old
    fate : Fate rest wins slot.entry.dirty_regions new

  abbrev FollowsIn : List ℕ → CacheManager → Type 0
  FollowsIn rest m = Follows rest m.cs.entries m.writing_back_wins m.events
