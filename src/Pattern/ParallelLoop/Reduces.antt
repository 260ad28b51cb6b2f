-- ===== src/Pattern/ParallelLoop/Reduces.antt =====
-- include/ityr/pattern/parallel_loop.hpp: a parallel reduction against the loop of one task.
use itoyori.Prelude.{
  ℕ, zero, suc, ◌/◌, ◌<◌, ◌≡◌, refl, ap, ◌∙◌, inl, inr, List, [], ◌∷◌, ◌++◌, Bool, true, false,
  Option, some, take, drop, length, leb, leb→gt, Bool-cases, arith, take-append-drop, length-take,
  length-drop,
}
use itoyori.Pattern.SerialLoop.{
  SequencedPolicy, ParallelPolicy, to_sequenced_policy, assert_sequenced, assert_parallel,
  apply_iterators, for_each_aux,
}
use itoyori.Pattern.SerialLoop.Chunks.{apply_iterators-cut, for_each_aux-apply_iterators}
use itoyori.Pattern.ParallelLoop.{
  ExecutionPolicy, sequenced, parallel, assert_policy, parallel_reduce_generic, reduce_generic,
  after_serialized, after_join,
}

pub assert_parallel-positive :
    (policy : ParallelPolicy)
    → assert_parallel policy ≡ true
    → (0 < policy.checkout_count) × (0 < policy.cutoff_count)
unfolding assert_parallel
assert_parallel-positive policy h = ground arith

pub assert_sequenced-positive :
    (policy : SequencedPolicy) → assert_sequenced policy ≡ true → 0 < policy.checkout_count
unfolding assert_sequenced
assert_sequenced-positive policy h = ground arith

module _ {T A B : Type 0} (accumulate_op : T → A → T × B)
    (combine_op : T → T → List B → List B → Option (T × List B)) (identity : T) where
  -- combine_op gives what a run over both ranges gives, if the second range was run from the identity.
  unfoldable pub Merges : Type 0
  Merges =
      (acc : T) (xs ys : List A)
      → combine_op (apply_iterators accumulate_op acc xs).0
          (apply_iterators accumulate_op identity ys).0 (apply_iterators accumulate_op acc xs).1
          (apply_iterators accumulate_op identity ys).1
        ≡ some (apply_iterators accumulate_op acc (xs ++ ys))

module _ {T A B : Type 0} (is_global : Bool) (accumulate_op : T → A → T × B)
    (combine_op : T → T → List B → List B → Option (T × List B)) (identity : T) where
  Reduced : ℕ → ParallelPolicy → (List Bool → Bool) → T → List A → Type 0
  Reduced fuel policy serialized acc xs =
      parallel_reduce_generic is_global accumulate_op combine_op identity fuel policy serialized acc
        xs
      ≡ some (apply_iterators accumulate_op acc xs)

  leaf_run :
      (policy : ParallelPolicy) (acc : T) (xs : List A)
      → 0 < policy.checkout_count
      → for_each_aux accumulate_op is_global (to_sequenced_policy policy) acc xs
        ≡ some (apply_iterators accumulate_op acc xs)
  unfolding to_sequenced_policy
  leaf_run policy acc xs h =
      for_each_aux-apply_iterators accumulate_op is_global (to_sequenced_policy policy) acc xs h

  leaf_step :
      (fuel : ℕ) (policy : ParallelPolicy) (serialized : List Bool → Bool) (acc : T) (xs : List A)
      → leb (length xs) policy.cutoff_count ≡ true
      → for_each_aux accumulate_op is_global (to_sequenced_policy policy) acc xs
        ≡ some (apply_iterators accumulate_op acc xs)
      → Reduced (suc fuel) policy serialized acc xs
  unfolding parallel_reduce_generic Reduced
  leaf_step fuel policy serialized acc xs small e = rw (small, e) refl

  serialized_step :
      (fuel : ℕ) (policy : ParallelPolicy) (serialized : List Bool → Bool) (acc : T) (xs : List A)
      → leb (length xs) policy.cutoff_count ≡ false
      → serialized [] ≡ true
      → Reduced fuel policy (λ path. serialized (false ∷ path)) acc (take (length xs / 2) xs)
      → Reduced fuel policy
          (λ path. serialized (true ∷ path))
          (apply_iterators accumulate_op acc (take (length xs / 2) xs)).0
          (drop (length xs / 2) xs)
      → Reduced (suc fuel) policy serialized acc xs
  unfolding parallel_reduce_generic after_serialized Reduced
  serialized_step fuel policy serialized acc xs large s th rest =
      rw (large, th, s, rest) (ap some (apply_iterators-cut accumulate_op (length xs / 2) acc xs))

  forked_step :
      (fuel : ℕ) (policy : ParallelPolicy) (serialized : List Bool → Bool) (acc : T) (xs : List A)
      → Merges accumulate_op combine_op identity
      → leb (length xs) policy.cutoff_count ≡ false
      → serialized [] ≡ false
      → Reduced fuel policy (λ path. serialized (false ∷ path)) acc (take (length xs / 2) xs)
      → Reduced fuel policy (λ path. serialized (true ∷ path)) identity (drop (length xs / 2) xs)
      → Reduced (suc fuel) policy serialized acc xs
  unfolding parallel_reduce_generic after_join Reduced Merges
  forked_step fuel policy serialized acc xs merges large s th rest =
      rw (large, th, s, rest)
        (merges acc (take (length xs / 2) xs) (drop (length xs / 2) xs)
          ∙ ap (λ (ys : List A). some (apply_iterators accumulate_op acc ys))
              (take-append-drop (length xs / 2) xs))

  reduced_lem :
      (fuel : ℕ) (policy : ParallelPolicy) (serialized : List Bool → Bool) (acc : T) (xs : List A)
      → Merges accumulate_op combine_op identity
      → 0 < policy.checkout_count
      → 0 < policy.cutoff_count
      → length xs < fuel
      → Reduced fuel policy serialized acc xs
  reduced_lem zero policy serialized acc xs merges checkout cutoff f = elim f [ ]
  reduced_lem (suc fuel) policy serialized acc xs merges checkout cutoff f =
      let half = length xs / 2 in
      let left = λ (large : policy.cutoff_count < length xs).
        reduced_lem fuel policy (λ path. serialized (false ∷ path)) acc (take half xs) merges
          checkout cutoff (omega (arith, length-take half xs)) in
      let right = λ (large : policy.cutoff_count < length xs) (start : T).
        reduced_lem fuel policy (λ path. serialized (true ∷ path)) start (drop half xs) merges
          checkout cutoff (omega (arith, length-drop half xs)) in
      elim (Bool-cases (leb (length xs) policy.cutoff_count)) [
        | inl small ↦
            leaf_step fuel policy serialized acc xs small (leaf_run policy acc xs checkout)
        | inr e ↦
            let large = leb→gt (length xs) policy.cutoff_count e in
            elim (Bool-cases (serialized [])) [
              | inl s ↦
                  serialized_step fuel policy serialized acc xs e s (left large)
                    (right large (apply_iterators accumulate_op acc (take half xs)).0)
              | inr s ↦
                  forked_step fuel policy serialized acc xs merges e s (left large)
                    (right large identity)
            ]
      ]

  -- Under a policy that assert_policy accepts, with a combine_op that merges a run over one range
  -- with a run from the identity over the next, reduce_generic ends, and returns and writes what
  -- one task that applies accumulate_op in order would, whichever threads the scheduler
  -- serialized.
  pub reduce_generic-apply_iterators :
      (policy : ExecutionPolicy) (serialized : List Bool → Bool) (acc : T) (xs : List A)
      → assert_policy policy ≡ true
      → Merges accumulate_op combine_op identity
      → reduce_generic is_global accumulate_op combine_op identity policy serialized acc xs
        ≡ some (apply_iterators accumulate_op acc xs)
  unfolding reduce_generic assert_policy Reduced
  reduce_generic-apply_iterators (sequenced policy) serialized acc xs h merges = rw h (
      for_each_aux-apply_iterators accumulate_op is_global policy acc xs
        (assert_sequenced-positive policy h))
  reduce_generic-apply_iterators (parallel policy) serialized acc xs h merges =
      let (checkout, cutoff) = assert_parallel-positive policy h in
      rw h (
        reduced_lem (suc (length xs)) policy serialized acc xs merges checkout cutoff (omega arith))
