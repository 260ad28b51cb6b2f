-- ===== src/Pattern/ParallelLoop/Tests.antt =====
-- include/ityr/pattern/parallel_loop.hpp: runs of the loops on small ranges.
use itoyori.Prelude.{
  ℕ, suc, ◌+◌, ◌*◌, ◌<◌, ◌≡◌, refl, List, [], ◌∷◌, ◌++◌, map, Bool, true, false, some, take, length,
  get_elem?, arith,
}
use itoyori.Pattern.SerialLoop.{
  to_sequenced_policy, assert_parallel, apply_iterators, for_each_chunked, for_each_aux,
}
use itoyori.Pattern.SerialLoop.Chunks.{for_each_aux-apply_iterators}
use itoyori.Pattern.ParallelLoop.{
  ExecutionPolicy, parallel, assert_policy, accumulated, written, for_each_leaf, join_halves,
  parallel_loop_generic, loop_generic, after_serialized, after_join, parallel_reduce_generic,
  reduce_generic,
}
use itoyori.Pattern.ParallelLoop.Algorithms.{
  local, checked_out, is_global_destination, transform, update_each, transform_half,
  update_then_transform, combined, combine_scan, accumulate_reduce, accumulate_scan,
  transform_reduce, reduce, transform_inclusive_scan, inclusive_scan,
}
use itoyori.Pattern.ParallelLoop.Loops.{loop_generic-map}
use itoyori.Pattern.ParallelLoop.Monoid.{
  sum_from, transform_reduce-sum_from, transform_inclusive_scan-get_elem?, reduce-Merges,
}
use itoyori.Pattern.ParallelLoop.Reduces.{reduce_generic-apply_iterators}

abbrev by_two : ExecutionPolicy
by_two = parallel (record { cutoff_count = 2; checkout_count = 1 })

-- The first fork is taken by another worker, and no other is.
abbrev first_stolen : List Bool → Bool
first_stolen [] = false
first_stolen (x ∷ path) = true

abbrev five : List ℕ
five = 1 ∷ 2 ∷ 3 ∷ 4 ∷ 5 ∷ []

abbrev add : ℕ → ℕ → ℕ
add a b = a + b

abbrev square : ℕ → ℕ
square x = x * x

by_two_valid : assert_policy by_two ≡ true
unfolding assert_policy assert_parallel
by_two_valid = refl

five_summed : reduce by_two first_stolen true 0 add five ≡ some 15
unfolding reduce transform_reduce accumulated reduce_generic parallel_reduce_generic
    after_serialized after_join assert_parallel to_sequenced_policy for_each_aux for_each_chunked
    apply_iterators accumulate_reduce
five_summed = refl

five_scanned :
    inclusive_scan by_two first_stolen true 0 add checked_out 0 five
    ≡ some (1 ∷ 3 ∷ 6 ∷ 10 ∷ 15 ∷ [])
unfolding inclusive_scan transform_inclusive_scan written reduce_generic parallel_reduce_generic
    after_serialized after_join assert_parallel to_sequenced_policy for_each_aux for_each_chunked
    apply_iterators accumulate_scan combine_scan combined transform_half transform loop_generic
    parallel_loop_generic join_halves for_each_leaf is_global_destination
five_scanned = refl

-- A destination that is not checked out gets the first half's sum twice, in its for_each and its transform.
five_scanned_local :
    inclusive_scan by_two first_stolen true 0 add local 0 five ≡ some (1 ∷ 3 ∷ 9 ∷ 13 ∷ 18 ∷ [])
unfolding inclusive_scan transform_inclusive_scan written reduce_generic parallel_reduce_generic
    after_serialized after_join assert_parallel to_sequenced_policy for_each_aux for_each_chunked
    apply_iterators accumulate_scan combine_scan combined update_then_transform update_each
    transform_half transform loop_generic parallel_loop_generic join_halves for_each_leaf
    is_global_destination
five_scanned_local = refl

for_each_aux-apply_iterators_example :
    for_each_aux (λ (s x : ℕ). (s + x, s)) true (record { checkout_count = 2 }) 0 five
    ≡ some (apply_iterators (λ (s x : ℕ). (s + x, s)) 0 five)
for_each_aux-apply_iterators_example =
    for_each_aux-apply_iterators (λ (s x : ℕ). (s + x, s)) true (record { checkout_count = 2 }) 0
      five (omega arith)

loop_generic-map_example : loop_generic true square by_two five ≡ some (map square five)
loop_generic-map_example = loop_generic-map true square by_two five by_two_valid

transform_reduce-sum_from_example :
    transform_reduce by_two first_stolen true 0 add square five ≡ some (sum_from add square 0 five)
transform_reduce-sum_from_example =
    transform_reduce-sum_from add square (λ a b c. omega arith) 0 (λ a. omega arith) by_two
      first_stolen true five by_two_valid

transform_inclusive_scan-get_elem?_example :
    (out : List ℕ) × (transform_inclusive_scan by_two first_stolen true 0 add square checked_out 7
        five
      ≡ some out)
    × (length out ≡ length five)
    × ((i : ℕ)
        → i < length five
        → get_elem? out i ≡ some (sum_from add square 7 (take (suc i) five)))
transform_inclusive_scan-get_elem?_example =
    transform_inclusive_scan-get_elem? add square (λ a b c. omega arith) 0 (λ a. omega arith) by_two
      first_stolen true 7 five by_two_valid

reduce_generic-apply_iterators_example :
    reduce_generic true
      (accumulate_reduce add square)
      (λ acc1 acc2 out1 out2. some (add acc1 acc2, out1 ++ out2))
      0
      by_two
      first_stolen
      3
      five
    ≡ some (apply_iterators (accumulate_reduce add square) 3 five)
reduce_generic-apply_iterators_example =
    reduce_generic-apply_iterators true (accumulate_reduce add square)
      (λ acc1 acc2 out1 out2. some (add acc1 acc2, out1 ++ out2)) 0 by_two first_stolen 3 five
      by_two_valid (reduce-Merges add square (λ a b c. omega arith) 0 (λ a. omega arith))
