-- ===== src/Ito/JoinRace/Phases.antt =====
-- include/ityr/ito/sched/randws.hpp: the states that a fork and its join go through.
use itoyori.Prelude.{ℕ, Bool, true, false, Option, none, some}
use itoyori.Ito.JoinRace.{
  Child, executing, drifted, written, lost, resuming, returned, won, handed_over, Parent, queued,
  after_fork, evacuating, evacuated, ready, asleep, awake, resumed, got, joined, Threads,
}

-- What the two have done: the thread up to its fetch-and-add, the parent up to its own.
pub data Early : Type 0 where
  runs drifts has_put : Early

pub data Waits : Type 0 where
  to_join to_evacuate has_evacuated to_race sleeps : Waits

-- The parent once the thread has won: it finds the flag raised at once, or in its own race.
pub data Late : Type 0 where
  late_join late_evacuate late_evacuated late_race to_drop : Late

-- How the parent came to the value: at its first look, after losing its race, or resumed by the thread.
pub data Way : Type 0 where
  at_once after_race by_thread : Way

pub data Phase : Type 0 where
  in_queue in_place serialized : Phase
  apart : Early → Waits → Phase
  after_win : Late → Phase
  to_fetch to_resume : Phase
  to_read has_value has_joined : Way → Phase

early_child : Early → Child
early_child runs = executing
early_child drifts = drifted
early_child has_put = written

way_child : Way → Child
way_child by_thread = handed_over
way_child at_once = won
way_child after_race = won

way_flag : Way → ℕ
way_flag at_once = 1
way_flag after_race = 2
way_flag by_thread = 2

way_suspended : Way → Bool
way_suspended at_once = false
way_suspended after_race = true
way_suspended by_thread = true

waits_flag : Waits → ℕ
waits_flag sleeps = 1
waits_flag to_join = 0
waits_flag to_evacuate = 0
waits_flag has_evacuated = 0
waits_flag to_race = 0

waits_suspended : Waits → Bool
waits_suspended to_join = false
waits_suspended to_evacuate = false
waits_suspended has_evacuated = false
waits_suspended to_race = true
waits_suspended sleeps = true

waits_frame : Waits → Bool
waits_frame to_join = false
waits_frame to_evacuate = false
waits_frame has_evacuated = true
waits_frame to_race = true
waits_frame sleeps = true

late_flag : Late → ℕ
late_flag to_drop = 2
late_flag late_join = 1
late_flag late_evacuate = 1
late_flag late_evacuated = 1
late_flag late_race = 1

late_suspended : Late → Bool
late_suspended late_join = false
late_suspended late_evacuate = false
late_suspended late_evacuated = false
late_suspended late_race = true
late_suspended to_drop = true

late_frame : Late → Bool
late_frame late_join = false
late_frame late_evacuate = false
late_frame late_evacuated = true
late_frame late_race = true
late_frame to_drop = true

module _ {T : Type 0} (v : T) where
  early_retval : Early → Option T
  early_retval runs = none
  early_retval drifts = none
  early_retval has_put = some v

  waits_parent : Waits → Parent T
  waits_parent to_join = after_fork
  waits_parent to_evacuate = evacuating
  waits_parent has_evacuated = evacuated
  waits_parent to_race = ready
  waits_parent sleeps = asleep

  late_parent : Late → Parent T
  late_parent late_join = after_fork
  late_parent late_evacuate = evacuating
  late_parent late_evacuated = evacuated
  late_parent late_race = ready
  late_parent to_drop = awake

  -- A state in which the thread_state is allocated and nobody has erred.
  allocated : Child → Parent T → Option T → ℕ → Bool → Bool → Threads T
  allocated c p r flag suspended frame = record {
    retval = r;
    resume_flag = flag;
    suspended = suspended;
    state_live = true;
    frame_live = frame;
    retval_ser = none;
    child = c;
    parent = p;
    fault = false;
  }

  -- The state of a phase.
  unfoldable pub state_of : Phase → Threads T
  unfolding early_child early_retval waits_parent waits_flag waits_suspended waits_frame late_parent
      late_flag late_suspended late_frame way_child way_flag way_suspended allocated
  state_of in_queue = allocated executing queued none 0 false false
  state_of in_place = record (allocated returned after_fork none 0 false false) {
    state_live = false;
    retval_ser = some v;
  }
  state_of serialized = record (allocated returned (joined v) none 0 false false) {
    state_live = false;
    retval_ser = some v;
  }
  state_of (apart e w) =
      allocated (early_child e) (waits_parent w) (early_retval e) (waits_flag w) (waits_suspended w)
        (waits_frame w)
  state_of (after_win l) =
      allocated won (late_parent l) (some v) (late_flag l) (late_suspended l) (late_frame l)
  state_of to_fetch = allocated lost asleep (some v) 2 true true
  state_of to_resume = allocated resuming asleep (some v) 2 true true
  state_of (to_read w) =
      allocated (way_child w) resumed (some v) (way_flag w) (way_suspended w) false
  state_of (has_value w) =
      allocated (way_child w) (got v) (some v) (way_flag w) (way_suspended w) false
  state_of (has_joined w) =
      record (allocated (way_child w) (joined v) (some v) (way_flag w) (way_suspended w) false) {
        state_live = false;
      }

-- What a move of the thread does to the phase.
late_of : Waits → Phase
late_of to_join = after_win late_join
late_of to_evacuate = after_win late_evacuate
late_of has_evacuated = after_win late_evacuated
late_of to_race = after_win late_race
late_of sleeps = to_fetch

unfoldable pub child_next : Phase → Option Phase
unfolding late_of
child_next in_queue = some in_place
child_next in_place = none
child_next serialized = none
child_next (apart runs w) = some (apart drifts w)
child_next (apart drifts w) = some (apart has_put w)
child_next (apart has_put w) = some (late_of w)
child_next (after_win l) = none
child_next to_fetch = some to_resume
child_next to_resume = some (to_read by_thread)
child_next (to_read w) = none
child_next (has_value w) = none
child_next (has_joined w) = none

unfoldable pub parent_next : Phase → Option Phase
parent_next in_queue = none
parent_next in_place = some serialized
parent_next serialized = none
parent_next (apart e to_join) = some (apart e to_evacuate)
parent_next (apart e to_evacuate) = some (apart e has_evacuated)
parent_next (apart e has_evacuated) = some (apart e to_race)
parent_next (apart e to_race) = some (apart e sleeps)
parent_next (apart e sleeps) = none
parent_next (after_win late_join) = some (to_read at_once)
parent_next (after_win late_evacuate) = some (after_win late_evacuated)
parent_next (after_win late_evacuated) = some (after_win late_race)
parent_next (after_win late_race) = some (after_win to_drop)
parent_next (after_win to_drop) = some (to_read after_race)
parent_next to_fetch = none
parent_next to_resume = none
parent_next (to_read w) = some (has_value w)
parent_next (has_value w) = some (has_joined w)
parent_next (has_joined w) = none

unfoldable pub steal_next : Phase → Option Phase
steal_next in_queue = some (apart runs to_join)
steal_next p = none
