-- ===== src/Pattern/ParallelLoop.antt =====
-- include/ityr/pattern/parallel_loop.hpp: the recursive fork-join loops. A range is halved down to
-- `cutoff_count` elements; the first half is the forked thread's. Whether a thread was serialized, which
-- the scheduler decides, is a function of its place in the tree of forks: `false` leads to the forked
-- half, `true` to the other. `none` is a failed check or fuel that ran out.
pub mod Reduces
pub mod Loops
pub mod Algorithms
pub mod Monoid
mod Tests
use itoyori.Prelude.{
  ℕ, zero, suc, ◌-◌, ◌/◌, List, [], ◌∷◌, ◌++◌, Bool, true, false, Option, none, some, take, drop,
  length, leb, if◌then◌else◌,
}
use Prim.{Unit, tt}
use itoyori.Pattern.SerialLoop.{
  SequencedPolicy, ParallelPolicy, to_sequenced_policy, assert_sequenced, assert_parallel,
  for_each_aux,
}

pub data ExecutionPolicy : Type 0 where
  sequenced : SequencedPolicy → ExecutionPolicy
  parallel : ParallelPolicy → ExecutionPolicy

-- Whether the checks of `assert_policy` pass.
unfoldable pub assert_policy : ExecutionPolicy → Bool
assert_policy (sequenced policy) = assert_sequenced policy
assert_policy (parallel policy) = assert_parallel policy

-- The accumulator that a loop returns, and what it writes.
module _ {T B : Type 0} where
  unfoldable pub accumulated : Option (T × List B) → Option T
  accumulated none = none
  accumulated (some r) = some r.0

  unfoldable pub written : Option (T × List B) → Option (List B)
  written none = none
  written (some r) = some r.1

module _ {A B : Type 0} (is_global : Bool) (op : A → B) where
  -- The call of `for_each_aux` for an operator with no state.
  unfoldable pub for_each_leaf : SequencedPolicy → List A → Option (List B)
  for_each_leaf policy xs =
      written (for_each_aux (λ (u : Unit {0}) (x : A). (u, op x)) is_global policy tt xs)

  -- What the two halves of `parallel_loop_generic` write.
  unfoldable pub join_halves : Option (List B) → Option (List B) → Option (List B)
  join_halves none rest = none
  join_halves (some out1) none = none
  join_halves (some out1) (some out2) = some (out1 ++ out2)

  -- The elements are written by unordered threads, each to its own place.
  unfoldable pub parallel_loop_generic : ℕ → ParallelPolicy → List A → Option (List B)
  parallel_loop_generic zero policy xs = none
  parallel_loop_generic (suc fuel) policy xs =
      let d = length xs in
      let th = parallel_loop_generic fuel policy (take (d / 2) xs) in
      let rest = parallel_loop_generic fuel policy (drop (d / 2) xs) in
      if leb d policy.cutoff_count
      then for_each_leaf (to_sequenced_policy policy) xs
      else join_halves th rest

  unfoldable pub loop_generic : ExecutionPolicy → List A → Option (List B)
  loop_generic (sequenced policy) xs =
      if assert_sequenced policy then for_each_leaf policy xs else none
  loop_generic (parallel policy) xs =
      if assert_parallel policy then parallel_loop_generic (suc (length xs)) policy xs else none

-- An operator `accumulate_op acc x` gives the new accumulator and what it writes to the last iterator.
-- `combine_op acc1 acc2 out1 out2` gives the accumulator and what it leaves of what the two halves wrote.
module _ {T A B : Type 0} (is_global : Bool) (accumulate_op : T → A → T × B)
    (combine_op : T → T → List B → List B → Option (T × List B)) (identity : T) where
  unfoldable pub after_serialized : List B → Option (T × List B) → Option (T × List B)
  after_serialized out1 none = none
  after_serialized out1 (some r) = some (r.0, out1 ++ r.1)

  unfoldable pub after_join : T × List B → Option (T × List B) → Option (T × List B)
  after_join r1 none = none
  after_join r1 (some r2) = combine_op r1.0 r2.0 r1.1 r2.1

  unfoldable pub parallel_reduce_generic :
      ℕ → ParallelPolicy → (List Bool → Bool) → T → List A → Option (T × List B)
  parallel_reduce_generic zero policy serialized acc xs = none
  parallel_reduce_generic (suc fuel) policy serialized acc xs =
      let d = length xs in
      let th =
        parallel_reduce_generic fuel policy (λ path. serialized (false ∷ path)) acc
          (take (d / 2) xs) in
      let rest = λ (start : T).
        parallel_reduce_generic fuel policy (λ path. serialized (true ∷ path)) start
          (drop (d / 2) xs) in
      if leb d policy.cutoff_count
      then for_each_aux accumulate_op is_global (to_sequenced_policy policy) acc xs
      else elim th [
        | none ↦ none
        | some r1 ↦
            if serialized []
            then after_serialized r1.1 (rest r1.0)
            else after_join r1 (rest identity)
      ]

  unfoldable pub reduce_generic :
      ExecutionPolicy → (List Bool → Bool) → T → List A → Option (T × List B)
  reduce_generic (sequenced policy) serialized acc xs =
      if assert_sequenced policy then for_each_aux accumulate_op is_global policy acc xs else none
  reduce_generic (parallel policy) serialized acc xs =
      if assert_parallel policy
      then parallel_reduce_generic (suc (length xs)) policy serialized acc xs
      else none
