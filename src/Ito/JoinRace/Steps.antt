-- ===== src/Ito/JoinRace/Steps.antt =====
-- include/ityr/ito/sched/randws.hpp: the moves of a fork and its join go from phase to phase.
use itoyori.Prelude.{◌≡◌, refl, Option, none, some}
use itoyori.Ito.JoinRace.{Threads, child_move, parent_move, steal_move}
use itoyori.Ito.JoinRace.Phases.{
  runs, drifts, has_put, to_join, to_evacuate, has_evacuated, to_race, sleeps, late_join,
  late_evacuate, late_evacuated, late_race, to_drop, at_once, after_race, by_thread, Phase,
  in_queue, in_place, serialized, apart, after_win, to_fetch, to_resume, to_read, has_value,
  has_joined, state_of, child_next, parent_next, steal_next,
}

module _ {T : Type 0} (v : T) where
  -- The state of the next phase, if there is one.
  unfoldable pub next_state : Option Phase → Option (Threads T)
  next_state none = none
  next_state (some p) = some (state_of v p)

  -- The moves go from phase to phase.
  pub child_move-phase :
      (p : Phase) → child_move v (state_of v p).child (state_of v p) ≡ next_state (child_next p)
  unfolding child_move state_of child_next next_state
  child_move-phase in_queue = refl
  child_move-phase in_place = refl
  child_move-phase serialized = refl
  child_move-phase (apart runs to_join) = refl
  child_move-phase (apart runs to_evacuate) = refl
  child_move-phase (apart runs has_evacuated) = refl
  child_move-phase (apart runs to_race) = refl
  child_move-phase (apart runs sleeps) = refl
  child_move-phase (apart drifts w) = refl
  child_move-phase (apart has_put to_join) = refl
  child_move-phase (apart has_put to_evacuate) = refl
  child_move-phase (apart has_put has_evacuated) = refl
  child_move-phase (apart has_put to_race) = refl
  child_move-phase (apart has_put sleeps) = refl
  child_move-phase (after_win l) = refl
  child_move-phase to_fetch = refl
  child_move-phase to_resume = refl
  child_move-phase (to_read at_once) = refl
  child_move-phase (to_read after_race) = refl
  child_move-phase (to_read by_thread) = refl
  child_move-phase (has_value at_once) = refl
  child_move-phase (has_value after_race) = refl
  child_move-phase (has_value by_thread) = refl
  child_move-phase (has_joined at_once) = refl
  child_move-phase (has_joined after_race) = refl
  child_move-phase (has_joined by_thread) = refl

  pub parent_move-phase :
      (p : Phase) → parent_move (state_of v p).parent (state_of v p) ≡ next_state (parent_next p)
  unfolding parent_move state_of parent_next next_state
  parent_move-phase in_queue = refl
  parent_move-phase in_place = refl
  parent_move-phase serialized = refl
  parent_move-phase (apart e to_join) = refl
  parent_move-phase (apart e to_evacuate) = refl
  parent_move-phase (apart e has_evacuated) = refl
  parent_move-phase (apart e to_race) = refl
  parent_move-phase (apart e sleeps) = refl
  parent_move-phase (after_win late_join) = refl
  parent_move-phase (after_win late_evacuate) = refl
  parent_move-phase (after_win late_evacuated) = refl
  parent_move-phase (after_win late_race) = refl
  parent_move-phase (after_win to_drop) = refl
  parent_move-phase to_fetch = refl
  parent_move-phase to_resume = refl
  parent_move-phase (to_read w) = refl
  parent_move-phase (has_value w) = refl
  parent_move-phase (has_joined w) = refl

  pub steal_move-phase :
      (p : Phase) → steal_move (state_of v p).parent (state_of v p) ≡ next_state (steal_next p)
  unfolding steal_move state_of steal_next next_state
  steal_move-phase in_queue = refl
  steal_move-phase in_place = refl
  steal_move-phase serialized = refl
  steal_move-phase (apart e to_join) = refl
  steal_move-phase (apart e to_evacuate) = refl
  steal_move-phase (apart e has_evacuated) = refl
  steal_move-phase (apart e to_race) = refl
  steal_move-phase (apart e sleeps) = refl
  steal_move-phase (after_win late_join) = refl
  steal_move-phase (after_win late_evacuate) = refl
  steal_move-phase (after_win late_evacuated) = refl
  steal_move-phase (after_win late_race) = refl
  steal_move-phase (after_win to_drop) = refl
  steal_move-phase to_fetch = refl
  steal_move-phase to_resume = refl
  steal_move-phase (to_read w) = refl
  steal_move-phase (has_value w) = refl
  steal_move-phase (has_joined w) = refl
