-- ===== src/Ito/JoinRace/Tests.antt =====
-- include/ityr/ito/sched/randws.hpp: a run in which the parent is stolen and the thread wins its race.
use itoyori.Prelude.{ℕ, ◌≤◌, ◌⊎◌, refl, some, false, arith}
use itoyori.Ito.JoinRace.{
  Threads, forked, after_fork, resumed, got, joined, won, drifted, written, die, put_retval,
  child_race, begin_join, get_retval, end_join, child_move, parent_move, steal_move, touch,
  free_state, is_queued, Moves, start, later, by_child, by_parent, by_thief,
}
use itoyori.Ito.JoinRace.Liveness.{IsJoined, CanMove, IsSafe, Moves-IsJoined, Moves-IsSafe}

abbrev stolen : Threads ℕ
unfolding forked
stolen = record forked { parent = after_fork }

abbrev dead : Threads ℕ
unfolding forked
dead = record stolen { retval = some 42; resume_flag = 1; child = won }

abbrev finished : Threads ℕ
unfolding forked
finished = record dead { parent = joined 42; state_live = false }

stolen_run : Moves 42 7 finished
unfolding forked steal_move child_move parent_move die is_queued put_retval child_race begin_join
    get_retval end_join touch free_state
stolen_run =
    later {n = 6} {s = record dead { parent = got 42 }}
      (later {n = 5} {s = record dead { parent = resumed }}
        (later {n = 4} {s = dead}
          (later {n = 3} {s = record stolen { child = written; retval = some 42 }}
            (later {n = 2} {s = record stolen { child = drifted }}
              (later {n = 1} {s = stolen} (later {n = 0} start (by_thief refl) (omega arith))
                (by_child refl) (omega arith))
              (by_child refl) (omega arith))
            (by_child refl) (omega arith))
          (by_parent refl) (omega arith))
        (by_parent refl) (omega arith))
      (by_parent refl) (omega arith)

Moves-IsJoined_example : (7 ≤ 12) × (IsJoined 42 finished ⊎ CanMove 42 finished)
Moves-IsJoined_example = Moves-IsJoined 42 stolen_run

Moves-IsSafe_example : IsSafe 42 finished
Moves-IsSafe_example = Moves-IsSafe 42 stolen_run
