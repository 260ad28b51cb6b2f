-- ===== src/Ori/ReleaseManager.antt =====
-- include/ityr/ori/release_manager.hpp: the epochs by which a rank asks another one to write back its
-- dirty data. The remote atomic operations on the epochs of a rank are steps of the loops.
pub mod Requests
mod Tests
use itoyori.Prelude.{
  ℕ, zero, suc, ◌+◌, Bool, true, false, not, ◌&&◌, List, [], ◌∷◌, Option, none, some, ltb, ◌==◌,
  if◌then◌else◌, add64,
}

-- `rma_data`
pub record RmaData : Type 0 where
  pub current_epoch : ℕ
  pub requested_epoch : ℕ

pub record ReleaseHandler : Type 0 where
  pub target_rank : ℕ
  pub required_epoch : ℕ

unfoldable pub increment_epoch : RmaData → RmaData
increment_epoch d = record d { current_epoch = add64 d.current_epoch 1 }

unfoldable pub get_release_handler : ℕ → RmaData → ReleaseHandler
get_release_handler my_rank d = record {
  target_rank = my_rank;
  required_epoch = add64 d.current_epoch 1;
}

unfoldable pub get_dummy_handler : ReleaseHandler
get_dummy_handler = record { target_rank = 0; required_epoch = 0 }

unfoldable pub release_requested : RmaData → Bool
release_requested d = ltb d.current_epoch d.requested_epoch

unfoldable pub release_needed : ℕ → ReleaseHandler → Bool
release_needed my_rank rh = not (rh.target_rank == my_rank) && ltb 0 rh.required_epoch

-- The loop of `request_release` at the last value that was seen; none if the fuel ran out. What the
-- other ranks do to the target between the compare-and-swaps is `others`: `others n` is what happens
-- before the n-th one, and `round` counts them. The compare-and-swap itself is atomic.
unfoldable pub request_release : (ℕ → RmaData → RmaData) → ℕ → ℕ → ℕ → ℕ → RmaData → Option RmaData
request_release others zero round seen requested d = none
request_release others (suc fuel) round seen requested d =
    let target = others round d in
    let retried = request_release others fuel (round + 1) target.requested_epoch requested target in
    if ltb seen requested
    then if target.requested_epoch == seen
      then some (record target { requested_epoch = requested })
      else retried
    else some d

-- The loop of `ensure_released`, from the cached epoch and the epochs that it reads one after another;
-- none if it still waits after them.
unfoldable pub wait_for : ℕ → ℕ → List ℕ → Option ℕ
wait_for required cached [] = if ltb cached required then none else some cached
wait_for required cached (e ∷ reads) =
    let later = wait_for required e reads in if ltb cached required then later else some cached
