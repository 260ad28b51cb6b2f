-- ===== src/Container/GlobalVector/Cells.antt =====
-- include/ityr/container/global_vector.hpp: the loops over cells of which the first hold the elements and
-- the others are raw.
use itoyori.Prelude.{
  ℕ, zero, suc, ◌+◌, ◌<◌, ◌≡◌, refl, ap, ◌∙◌, List, [], ◌∷◌, ◌++◌, map, Bool, true, false, Option,
  none, some, length, arith,
}
use Prim.{Unit, tt}
use itoyori.Pattern.SerialLoop.{assert_sequenced, assert_parallel}
use itoyori.Pattern.ParallelLoop.{assert_policy}
use itoyori.Pattern.ParallelLoop.Loops.{loop_generic-map}
use itoyori.Container.GlobalVector.{
  Options, policy_of, copies, construct_cells, destruct_cells, move_cells, free_mem,
  construct_elems, construct_elems_from_iter, destruct_elems,
}

module _ {A : Type 0} where
  -- Cells with the elements in front.
  unfoldable pub layout : List A → ℕ → List (Option A)
  layout [] n = copies n none
  layout (x ∷ xs) n = some x ∷ layout xs n

  pub construct_cells-layout :
      (xs ys : List A) (r n : ℕ)
      → r ≡ length ys + n
      → construct_cells (length xs) ys (layout xs r) ≡ some (layout (xs ++ ys) n)
  unfolding construct_cells layout copies
  construct_cells-layout [] [] r n e = ap (λ (m : ℕ). some (copies m none)) (the_rest e)
    where
      the_rest : r ≡ 0 + n → r ≡ n
      the_rest h = omega (arith, h)
  construct_cells-layout [] (y ∷ ys) zero n e = absurd (omega (arith, e))
  construct_cells-layout [] (y ∷ ys) (suc r) n e =
      rw (construct_cells-layout [] ys r n (omega (arith, e))) refl
  construct_cells-layout (x ∷ xs) ys r n e = rw (construct_cells-layout xs ys r n e) refl

  pub destruct_cells-layout :
      (xs ys : List A) (r n : ℕ)
      → r ≡ length ys + n
      → destruct_cells (length xs) (length ys) (layout (xs ++ ys) n) ≡ some (layout xs r)
  unfolding destruct_cells layout copies
  destruct_cells-layout [] [] r n e = ap (λ (m : ℕ). some (copies m none)) (the_rest e)
    where
      the_rest : r ≡ 0 + n → n ≡ r
      the_rest h = omega (arith, h)
  destruct_cells-layout [] (y ∷ ys) zero n e = absurd (omega (arith, e))
  destruct_cells-layout [] (y ∷ ys) (suc r) n e =
      rw (destruct_cells-layout [] ys r n (omega (arith, e))) refl
  destruct_cells-layout (x ∷ xs) ys r n e = rw (destruct_cells-layout xs ys r n e) refl

  pub move_cells-layout : (xs : List A) (n : ℕ) → move_cells (length xs) (layout xs n) ≡ some xs
  unfolding move_cells layout
  move_cells-layout [] n = refl
  move_cells-layout (x ∷ xs) n = rw (move_cells-layout xs n) refl

  pub length-copies : (n : ℕ) (a : A) → length (copies n a) ≡ n
  unfolding copies
  length-copies zero a = refl
  length-copies (suc n) a = ap suc (length-copies n a)

pub free_mem-copies : (A : Type 0) (n : ℕ) → free_mem n (copies {A = Option A} n none) ≡ some tt
unfolding free_mem copies
free_mem-copies A zero = refl
free_mem-copies A (suc n) = free_mem-copies A n

pub length-layout : {A : Type 0} (xs : List A) (n : ℕ) → length (layout xs n) ≡ length xs + n
unfolding layout
length-layout [] n = omega (arith, length-copies n none)
length-layout (x ∷ xs) n = omega (arith, length-layout xs n)

policy_of-valid :
    (is_parallel : Bool) (cutoff : ℕ)
    → 0 < cutoff
    → assert_policy (policy_of is_parallel cutoff) ≡ true
unfolding assert_policy policy_of assert_parallel assert_sequenced
policy_of-valid true cutoff h = ground arith
policy_of-valid false cutoff h = ground arith

map-copies : {A B : Type 0} (f : A → B) (n : ℕ) (a : A) → map f (copies n a) ≡ copies n (f a)
unfolding copies
map-copies f zero a = refl
map-copies f (suc n) a = ap (λ rest. f a ∷ rest) (map-copies f n a)

map-same : {A : Type 0} (xs : List A) → map (λ x. x) xs ≡ xs
map-same [] = refl
map-same (x ∷ xs) = ap (λ rest. x ∷ rest) (map-same xs)

module _ {A : Type 0} (opts : Options) (positive : 0 < opts.cutoff_count) where
  pub construct_elems-cells :
      (offset count : ℕ) (value : A) (cells : List (Option A))
      → construct_elems opts offset count value cells
        ≡ construct_cells offset (copies count value) cells
  unfolding construct_elems
  construct_elems-cells offset count value cells =
      rw
        (loop_generic-map true (λ (_ : Unit {0}). value)
          (policy_of opts.parallel_construct opts.cutoff_count) (copies count tt)
          (policy_of-valid opts.parallel_construct opts.cutoff_count positive))
        (ap (λ vs. construct_cells offset vs cells) (map-copies (λ _. value) count tt))

  pub construct_elems_from_iter-cells :
      (values : List A) (cells : List (Option A))
      → construct_elems_from_iter opts values cells ≡ construct_cells 0 values cells
  unfolding construct_elems_from_iter
  construct_elems_from_iter-cells values cells =
      rw
        (loop_generic-map true (λ (v : A). v) (policy_of opts.parallel_construct opts.cutoff_count)
          values (policy_of-valid opts.parallel_construct opts.cutoff_count positive))
        (ap (λ vs. construct_cells 0 vs cells) (map-same values))

  pub destruct_elems-cells :
      (offset count : ℕ) (cells : List (Option A))
      → destruct_elems opts offset count cells ≡ destruct_cells offset count cells
  unfolding destruct_elems
  destruct_elems-cells offset count cells =
      rw
        (loop_generic-map true (λ (u : Unit {0}). u)
          (policy_of opts.parallel_destruct opts.cutoff_count) (copies count tt)
          (policy_of-valid opts.parallel_destruct opts.cutoff_count positive))
        (ap (λ us. destruct_cells offset (length us) cells) (map-same (copies count (tt {0})))
          ∙ ap (λ m. destruct_cells offset m cells) (length-copies count (tt {0})))
