-- ===== src/Ori/CacheManager/Fetch.antt =====
-- What `fetch_begin` fetches: the bytes of the padded region that were not valid.
use itoyori.Prelude.{ℕ, ◌≡◌, Bool, true, false, not, ◌&&◌, ◌||◌, List, [], ◌∷◌, ◌++◌}
use itoyori.Ori.BlockRegions.{Region}
use itoyori.Ori.BlockRegions
use itoyori.Ori.BlockRegions.Covers.{covers, inside, IsSorted}
use itoyori.Ori.CacheManager.{CacheBlock, Event, get_nb, put_nb, flush, unmap, map_to_vm}
use itoyori.Ori.CacheManager.Dirty.Written.{Place, moves, home}

-- Some get among the events brings the byte from its home.
abbrev pub fetches : Place → List Event → Bool
fetches p [] = false
fetches p (get_nb t ∷ log) = moves p t || fetches p log
fetches p (put_nb t ∷ log) = fetches p log
fetches p (flush w ∷ log) = fetches p log
fetches p (unmap a ∷ log) = fetches p log
fetches p (map_to_vm a c ∷ log) = fetches p log

-- What a fetch of the region leaves: `now` are the valid bytes, and `new` the events.
pub record Fetched (block_size : ℕ) (cb : CacheBlock) (br : Region) (log : List Event)
    (r : Bool × CacheBlock × List Event) : Type 0 where
  pub new : List Event
  pub events : r.2 ≡ new ++ log
  pub sorted : IsSorted r.1.valid_regions
  pub kept : (x : ℕ) → covers cb.valid_regions x ≡ true → covers r.1.valid_regions x ≡ true
  pub requested : (x : ℕ) → inside br x ≡ true → covers r.1.valid_regions x ≡ true
  pub exactly :
      (x : ℕ)
      → fetches (home block_size cb x) new
        ≡ (covers r.1.valid_regions x && not (covers cb.valid_regions x))
