-- ===== src/Pattern/ParallelLoop/Loops.antt =====
-- include/ityr/pattern/parallel_loop.hpp: a parallel loop and the elements that it writes.
use itoyori.Prelude.{
  ℕ, zero, suc, ◌/◌, ◌<◌, ◌≡◌, refl, ap, ◌∙◌, inl, inr, List, [], ◌∷◌, ◌++◌, map, Bool, true, false,
  some, take, drop, length, leb, leb→gt, Bool-cases, arith, length-take, length-drop,
}
use Prim.{Unit, tt}
use itoyori.Pattern.SerialLoop.{
  SequencedPolicy, ParallelPolicy, to_sequenced_policy, apply_iterators,
}
use itoyori.Pattern.SerialLoop.Chunks.{for_each_aux-apply_iterators}
use itoyori.Pattern.ParallelLoop.Reduces.{assert_parallel-positive, assert_sequenced-positive}
use itoyori.Pattern.ParallelLoop.{
  ExecutionPolicy, sequenced, parallel, assert_policy, written, for_each_leaf, join_halves,
  parallel_loop_generic, loop_generic,
}

module _ {A B : Type 0} (is_global : Bool) (op : A → B) where
  apply_iterators-map :
      (u : Unit {0}) (xs : List A)
      → (apply_iterators (λ (u : Unit {0}) (x : A). (u, op x)) u xs).1 ≡ map op xs
  unfolding apply_iterators
  apply_iterators-map u [] = refl
  apply_iterators-map u (x ∷ xs) = ap (λ ys. op x ∷ ys) (apply_iterators-map u xs)

  pub for_each_leaf-map :
      (policy : SequencedPolicy) (xs : List A)
      → 0 < policy.checkout_count
      → for_each_leaf is_global op policy xs ≡ some (map op xs)
  unfolding for_each_leaf written
  for_each_leaf-map policy xs h =
      ap written (
        for_each_aux-apply_iterators (λ (u : Unit {0}) (x : A). (u, op x)) is_global policy tt xs h)
      ∙ ap some (apply_iterators-map tt xs)

  map-cut : (n : ℕ) (xs : List A) → map op (take n xs) ++ map op (drop n xs) ≡ map op xs
  map-cut zero xs = refl
  map-cut (suc n) [] = refl
  map-cut (suc n) (x ∷ xs) = ap (λ ys. op x ∷ ys) (map-cut n xs)

  leaf_step :
      (fuel : ℕ) (policy : ParallelPolicy) (xs : List A)
      → leb (length xs) policy.cutoff_count ≡ true
      → 0 < policy.checkout_count
      → parallel_loop_generic is_global op (suc fuel) policy xs ≡ some (map op xs)
  unfolding parallel_loop_generic to_sequenced_policy
  leaf_step fuel policy xs small h = rw small (for_each_leaf-map (to_sequenced_policy policy) xs h)

  forked_step :
      (fuel : ℕ) (policy : ParallelPolicy) (xs : List A)
      → leb (length xs) policy.cutoff_count ≡ false
      → parallel_loop_generic is_global op fuel policy (take (length xs / 2) xs)
        ≡ some (map op (take (length xs / 2) xs))
      → parallel_loop_generic is_global op fuel policy (drop (length xs / 2) xs)
        ≡ some (map op (drop (length xs / 2) xs))
      → parallel_loop_generic is_global op (suc fuel) policy xs ≡ some (map op xs)
  unfolding parallel_loop_generic join_halves
  forked_step fuel policy xs large th rest =
      rw (large, th, rest) (ap some (map-cut (length xs / 2) xs))

  parallel_loop_lem :
      (fuel : ℕ) (policy : ParallelPolicy) (xs : List A)
      → 0 < policy.checkout_count
      → 0 < policy.cutoff_count
      → length xs < fuel
      → parallel_loop_generic is_global op fuel policy xs ≡ some (map op xs)
  parallel_loop_lem zero policy xs checkout cutoff f = elim f [ ]
  parallel_loop_lem (suc fuel) policy xs checkout cutoff f =
      let half = length xs / 2 in
      elim (Bool-cases (leb (length xs) policy.cutoff_count)) [
        | inl small ↦ leaf_step fuel policy xs small checkout
        | inr e ↦
            let large = leb→gt (length xs) policy.cutoff_count e in
            forked_step fuel policy xs e
              (parallel_loop_lem fuel policy (take half xs) checkout cutoff
                (omega (arith, length-take half xs)))
              (parallel_loop_lem fuel policy (drop half xs) checkout cutoff
                (omega (arith, length-drop half xs)))
      ]

  -- Under a policy that assert_policy accepts, a loop ends and writes at each place what the
  -- operator gives of the element there.
  pub loop_generic-map :
      (policy : ExecutionPolicy) (xs : List A)
      → assert_policy policy ≡ true
      → loop_generic is_global op policy xs ≡ some (map op xs)
  unfolding loop_generic assert_policy
  loop_generic-map (sequenced policy) xs h =
      rw h (for_each_leaf-map policy xs (assert_sequenced-positive policy h))
  loop_generic-map (parallel policy) xs h =
      let (checkout, cutoff) = assert_parallel-positive policy h in
      rw h (parallel_loop_lem (suc (length xs)) policy xs checkout cutoff (omega arith))
