-- ===== src/Ito/JoinRace.antt =====
-- include/ityr/ito/sched/randws.hpp: a fork, the death of the forked thread and the join of its parent,
-- which meet at the thread_state of the thread. The parent's frame lies in the work-stealing queue after
-- the fork. A move is one access to what the two share; `fault` is set by an access to freed memory, by
-- the read of what nobody wrote, and by a second resumption of the parent.
pub mod Phases
pub mod Steps
pub mod Liveness
mod Tests
use itoyori.Prelude.{
  ℕ, ◌+◌, ◌≡◌, Bool, true, false, ◌||◌, not, Option, none, some, ◌==◌, if◌then◌else◌,
}

-- Where the forked thread is. `returned`, `won` and `handed_over` are its ends.
pub data Child : Type 0 where
  executing drifted written lost resuming returned won handed_over : Child

module _ (T : Type 0) where
  -- Where the parent is: queued, or from the code after the fork on. `joined` has the thread's value.
  pub data Parent : Type 0 where
    queued after_fork evacuating evacuated ready asleep awake resumed : Parent
    got joined : T → Parent

  -- thread_state, the thread_handler's serialized value, and the allocations. suspended says whether
  -- the suspended_state has been written.
  pub record Threads : Type 0 where
    pub retval : Option T
    pub resume_flag : ℕ
    pub suspended : Bool
    pub state_live : Bool
    pub frame_live : Bool
    pub retval_ser : Option T
    pub child : Child
    pub parent : Parent
    pub fault : Bool

module _ {T : Type 0} where
  pub is_queued : Parent T → Bool
  is_queued queued = true
  is_queued p = false

  pub is_asleep : Parent T → Bool
  is_asleep asleep = true
  is_asleep p = false

  -- An access to the thread_state.
  pub touch : Threads T → Threads T
  touch s = record s { fault = s.fault || not s.state_live }

  pub free_state : Threads T → Threads T
  unfolding touch
  free_state s = record (touch s) { state_live = false }

  pub free_frame : Threads T → Threads T
  free_frame s = record s { frame_live = false; fault = s.fault || not s.frame_live }

  -- After `fork` has pushed the parent's frame.
  pub forked : Threads T
  forked = record {
    retval = none;
    resume_flag = 0;
    suspended = false;
    state_live = true;
    frame_live = false;
    retval_ser = none;
    child = executing;
    parent = queued;
    fault = false;
  }

  -- The thread is done: `on_die` pops the queue, and the parent goes on in place if its frame is there.
  pub die : T → Threads T → Threads T
  unfolding free_state is_queued
  die v s =
      if is_queued s.parent
      then record (free_state s) { retval_ser = some v; parent = after_fork; child = returned }
      else record s { child = drifted }

  pub put_retval : T → Threads T → Threads T
  unfolding touch
  put_retval v s = record (touch s) { retval = some v; child = written }

  -- The fetch-and-add of `on_die`.
  pub child_race : Threads T → Threads T
  unfolding touch
  child_race s = record (touch s) {
    resume_flag = s.resume_flag + 1;
    child = if s.resume_flag == 0 then won else lost;
  }

  pub get_suspended : Threads T → Threads T
  unfolding touch
  get_suspended s = record (touch s) {
    child = resuming;
    fault = (touch s).fault || not s.suspended;
  }

  -- `resume` of the suspended state: the frame is fetched and freed, and the parent runs.
  pub resume_parent : Threads T → Threads T
  unfolding free_frame is_asleep
  resume_parent s = record (free_frame s) {
    child = handed_over;
    parent = resumed;
    fault = (free_frame s).fault || not (is_asleep s.parent);
  }

  pub child_move : T → Child → Threads T → Option (Threads T)
  unfolding die put_retval child_race get_suspended resume_parent
  child_move v executing s = some (die v s)
  child_move v drifted s = some (put_retval v s)
  child_move v written s = some (child_race s)
  child_move v lost s = some (get_suspended s)
  child_move v resuming s = some (resume_parent s)
  child_move v returned s = none
  child_move v won s = none
  child_move v handed_over s = none

  -- The first reads of `join`, of a handler that is serialized or not.
  pub begin_join : Option T → Threads T → Threads T
  unfolding touch
  begin_join (some x) s = record s { parent = joined x }
  begin_join none s = record (touch s) {
    parent = if s.resume_flag == 0 then evacuating else resumed;
  }

  pub evacuate : Threads T → Threads T
  evacuate s = record s { frame_live = true; parent = evacuated }

  pub put_suspended : Threads T → Threads T
  unfolding touch
  put_suspended s = record (touch s) { suspended = true; parent = ready }

  -- The fetch-and-add of `join`.
  pub parent_race : Threads T → Threads T
  unfolding touch
  parent_race s = record (touch s) {
    resume_flag = s.resume_flag + 1;
    parent = if s.resume_flag == 0 then asleep else awake;
  }

  pub drop_frame : Threads T → Threads T
  unfolding free_frame
  drop_frame s = record (free_frame s) { parent = resumed }

  pub get_retval : Option T → Threads T → Threads T
  unfolding touch
  get_retval none s = record s { fault = true }
  get_retval (some x) s = record (touch s) { parent = got x }

  pub end_join : T → Threads T → Threads T
  unfolding free_state
  end_join x s = record (free_state s) { parent = joined x }

  pub parent_move : Parent T → Threads T → Option (Threads T)
  unfolding begin_join evacuate put_suspended parent_race drop_frame get_retval end_join
  parent_move queued s = none
  parent_move after_fork s = some (begin_join s.retval_ser s)
  parent_move evacuating s = some (evacuate s)
  parent_move evacuated s = some (put_suspended s)
  parent_move ready s = some (parent_race s)
  parent_move asleep s = none
  parent_move awake s = some (drop_frame s)
  parent_move resumed s = some (get_retval s.retval s)
  parent_move (got x) s = some (end_join x s)
  parent_move (joined x) s = none

  -- A thief takes the parent's frame from the queue.
  pub steal_move : Parent T → Threads T → Option (Threads T)
  steal_move queued s = some (record s { parent = after_fork })
  steal_move p s = none

  -- The moves of the three, in any order; the thread's value is `v`.
  pub data Move (v : T) (s : Threads T) : Threads T → Type 0 where
    by_child : {t : Threads T} → child_move v s.child s ≡ some t → Move v s t
    by_parent : {t : Threads T} → parent_move s.parent s ≡ some t → Move v s t
    by_thief : {t : Threads T} → steal_move s.parent s ≡ some t → Move v s t

  -- What moves lead to, with their number.
  pub data Moves (v : T) : ℕ → Threads T → Type 0 where
    start : Moves v 0 forked
    later : {n m : ℕ} {s t : Threads T} → Moves v n s → Move v s t → m ≡ n + 1 → Moves v m t
