-- ===== src/Pattern/ParallelLoop/Algorithms.antt =====
-- include/ityr/pattern/parallel_loop.hpp: the algorithms over the fork-join loops, one list of elements to
-- one list. A list gives each element the accumulator's type, as `value_type` is.
use itoyori.Prelude.{List, ◌++◌, Bool, true, false, Option, none, some, ◌||◌}
use Prim.{Unit, tt}
use itoyori.Pattern.ParallelLoop.{
  ExecutionPolicy, accumulated, written, loop_generic, reduce_generic,
}

module _ {A D : Type 0} (policy : ExecutionPolicy) where
  -- `is_global` says whether an iterator is a global_iterator, after the conversion of global pointers.
  unfoldable pub transform : Bool → (A → D) → List A → Option (List D)
  transform is_global unary_op xs = loop_generic is_global unary_op policy xs

  unfoldable pub fill : Bool → D → List A → Option (List D)
  fill is_global value xs = loop_generic is_global (λ _. value) policy xs

-- What the destination's iterator is: no global_iterator, one without automatic checkout, or one with it.
pub data Destination : Type 0 where
  local : Destination
  no_access : Destination
  checked_out : Destination

unfoldable pub is_global_destination : Destination → Bool
is_global_destination local = false
is_global_destination no_access = true
is_global_destination checked_out = true

module _ {T : Type 0} (policy : ExecutionPolicy) (binary_op : T → T → T)
    (destination : Destination) where
  -- `for_each` with the operator that updates each element in place.
  unfoldable pub update_each : T → List T → Option (List T)
  update_each acc1 out2 =
      loop_generic (is_global_destination destination) (binary_op acc1) policy out2

  -- `transform` of the second half onto itself; a checked-out destination is a pointer, and made global.
  unfoldable pub transform_half : T → List T → Option (List T)
  transform_half acc1 out2 =
      transform policy (is_global_destination destination) (binary_op acc1) out2

  unfoldable pub update_then_transform : T → Option (List T) → Option (List T)
  update_then_transform acc1 none = none
  update_then_transform acc1 (some updated) = transform_half acc1 updated

  -- The result of `combine_op` from what the second half holds in the end.
  unfoldable pub combined : T → T → List T → Option (List T) → Option (T × List T)
  combined acc1 acc2 out1 none = none
  combined acc1 acc2 out1 (some out2) = some (binary_op acc1 acc2, out1 ++ out2)

  -- `combine_op` of the scan, which reaches the destination from first to last.
  unfoldable pub combine_scan : T → T → List T → List T → Option (T × List T)
  combine_scan acc1 acc2 out1 out2 = combined acc1 acc2 out1 (elim destination [
    | local ↦ update_then_transform acc1 (update_each acc1 out2)
    | no_access ↦ update_then_transform acc1 (update_each acc1 out2)
    | checked_out ↦ transform_half acc1 out2
  ])

module _ {T A : Type 0} (binary_op : T → T → T) (unary_transform_op : A → T) where
  unfoldable pub accumulate_reduce : T → A → T × Unit {0}
  accumulate_reduce acc v = (binary_op acc (unary_transform_op v), tt)

  unfoldable pub accumulate_scan : T → A → T × T
  accumulate_scan acc v1 =
      (binary_op acc (unary_transform_op v1), binary_op acc (unary_transform_op v1))

module _ {T A : Type 0} (policy : ExecutionPolicy) (serialized : List Bool → Bool)
    (is_global : Bool) (identity : T) (binary_op : T → T → T) (unary_transform_op : A → T) where
  unfoldable pub transform_reduce : List A → Option T
  transform_reduce xs = accumulated (
      reduce_generic is_global (accumulate_reduce binary_op unary_transform_op)
        (λ acc1 acc2 out1 out2. some (binary_op acc1 acc2, out1 ++ out2)) identity policy serialized
        identity xs)

  -- `is_global` is about the input's iterators.
  unfoldable pub transform_inclusive_scan : Destination → T → List A → Option (List T)
  transform_inclusive_scan destination init xs = written (
      reduce_generic (is_global || is_global_destination destination)
        (accumulate_scan binary_op unary_transform_op) (combine_scan policy binary_op destination)
        identity policy serialized init xs)

module _ {T : Type 0} (policy : ExecutionPolicy) (serialized : List Bool → Bool) (is_global : Bool)
    (identity : T) (binary_op : T → T → T) where
  unfoldable pub reduce : List T → Option T
  reduce xs = transform_reduce policy serialized is_global identity binary_op (λ v. v) xs

  unfoldable pub inclusive_scan : Destination → T → List T → Option (List T)
  inclusive_scan destination init xs =
      transform_inclusive_scan policy serialized is_global identity binary_op (λ v. v) destination
        init xs
