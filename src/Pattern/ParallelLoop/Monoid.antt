-- ===== src/Pattern/ParallelLoop/Monoid.antt =====
-- include/ityr/pattern/parallel_loop.hpp: the reductions and scans of a monoid.
use itoyori.Prelude.{
  ℕ, zero, suc, ◌<◌, ◌≡◌, refl, ap, sym, ◌∙◌, List, [], ◌∷◌, ◌++◌, map, Bool, true, ◌||◌, some,
  take, length, get_elem?, arith,
}
use Prim.{Unit, tt}
use itoyori.Pattern.SerialLoop.{apply_iterators}
use itoyori.Pattern.ParallelLoop.{ExecutionPolicy, assert_policy, accumulated, written}
use itoyori.Pattern.ParallelLoop.Reduces.{Merges, reduce_generic-apply_iterators}
use itoyori.Pattern.ParallelLoop.Loops.{loop_generic-map}
use itoyori.Pattern.ParallelLoop.Algorithms.{
  checked_out, is_global_destination, transform, transform_half, combined, combine_scan,
  accumulate_reduce, accumulate_scan, transform_reduce, transform_inclusive_scan,
}

map-append : {A B : Type 0} (f : A → B) (xs ys : List A) → map f (xs ++ ys) ≡ map f xs ++ map f ys
map-append f [] ys = refl
map-append f (x ∷ xs) ys = ap (λ rest. f x ∷ rest) (map-append f xs ys)

module _ {T A : Type 0} (binary_op : T → T → T) (unary_transform_op : A → T) where
  -- The sum of the transformed elements, from the left.
  unfoldable pub sum_from : T → List A → T
  sum_from acc [] = acc
  sum_from acc (x ∷ xs) = sum_from (binary_op acc (unary_transform_op x)) xs

  -- Each element's prefix, summed.
  unfoldable pub sums_from : T → List A → List T
  sums_from acc [] = []
  sums_from acc (x ∷ xs) = let sum = binary_op acc (unary_transform_op x) in sum ∷ sums_from sum xs

  pub length-sums_from : (acc : T) (xs : List A) → length (sums_from acc xs) ≡ length xs
  unfolding sums_from
  length-sums_from acc [] = refl
  length-sums_from acc (x ∷ xs) =
      ap suc (length-sums_from (binary_op acc (unary_transform_op x)) xs)

  pub get_elem?-sums_from :
      (acc : T) (xs : List A) (i : ℕ)
      → i < length xs
      → get_elem? (sums_from acc xs) i ≡ some (sum_from acc (take (suc i) xs))
  unfolding sums_from sum_from
  get_elem?-sums_from acc [] i h = elim h [ ]
  get_elem?-sums_from acc (x ∷ xs) zero h = refl
  get_elem?-sums_from acc (x ∷ xs) (suc i) h =
      get_elem?-sums_from (binary_op acc (unary_transform_op x)) xs i (omega arith)

  accumulate_reduce_lem :
      (acc : T) (xs : List A)
      → apply_iterators (accumulate_reduce binary_op unary_transform_op) acc xs
        ≡ (sum_from acc xs, map (λ _. tt) xs)
  unfolding apply_iterators accumulate_reduce sum_from
  accumulate_reduce_lem acc [] = refl
  accumulate_reduce_lem acc (x ∷ xs) =
      ap (λ (r : T × List (Unit {0})). (r.0, tt ∷ r.1))
        (accumulate_reduce_lem (binary_op acc (unary_transform_op x)) xs)

  accumulate_scan_lem :
      (acc : T) (xs : List A)
      → apply_iterators (accumulate_scan binary_op unary_transform_op) acc xs
        ≡ (sum_from acc xs, sums_from acc xs)
  unfolding apply_iterators accumulate_scan sum_from sums_from
  accumulate_scan_lem acc [] = refl
  accumulate_scan_lem acc (x ∷ xs) =
      ap (λ (r : T × List T). (r.0, binary_op acc (unary_transform_op x) ∷ r.1))
        (accumulate_scan_lem (binary_op acc (unary_transform_op x)) xs)

  sum_from-append :
      (acc : T) (xs ys : List A) → sum_from acc (xs ++ ys) ≡ sum_from (sum_from acc xs) ys
  unfolding sum_from
  sum_from-append acc [] ys = refl
  sum_from-append acc (x ∷ xs) ys = sum_from-append (binary_op acc (unary_transform_op x)) xs ys

  sums_from-append :
      (acc : T) (xs ys : List A)
      → sums_from acc (xs ++ ys) ≡ sums_from acc xs ++ sums_from (sum_from acc xs) ys
  unfolding sum_from sums_from
  sums_from-append acc [] ys = refl
  sums_from-append acc (x ∷ xs) ys =
      let sum = binary_op acc (unary_transform_op x) in
      ap (λ rest. sum ∷ rest) (sums_from-append sum xs ys)

  module _
      (op_assoc : (a b c : T) → binary_op (binary_op a b) c ≡ binary_op a (binary_op b c)) where
    sum_from-shift :
        (a b : T) (ys : List A) → sum_from (binary_op a b) ys ≡ binary_op a (sum_from b ys)
    unfolding sum_from
    sum_from-shift a b [] = refl
    sum_from-shift a b (y ∷ ys) =
        ap (λ (t : T). sum_from t ys) (op_assoc a b (unary_transform_op y))
        ∙ sum_from-shift a (binary_op b (unary_transform_op y)) ys

    sums_from-shift :
        (a b : T) (ys : List A) → sums_from (binary_op a b) ys ≡ map (binary_op a) (sums_from b ys)
    unfolding sums_from
    sums_from-shift a b [] = refl
    sums_from-shift a b (y ∷ ys) =
        ap (λ (t : T). t ∷ sums_from t ys) (op_assoc a b (unary_transform_op y))
        ∙ ap (λ rest. binary_op a (binary_op b (unary_transform_op y)) ∷ rest)
            (sums_from-shift a (binary_op b (unary_transform_op y)) ys)

    module _ (identity : T) (op_identity : (a : T) → binary_op a identity ≡ a) where
      -- What the second half adds to, it may add to later.
      sum_from-merge : (a : T) (ys : List A) → binary_op a (sum_from identity ys) ≡ sum_from a ys
      sum_from-merge a ys =
          sym (sum_from-shift a identity ys) ∙ ap (λ (t : T). sum_from t ys) (op_identity a)

      sums_from-merge :
          (a : T) (ys : List A) → map (binary_op a) (sums_from identity ys) ≡ sums_from a ys
      sums_from-merge a ys =
          sym (sums_from-shift a identity ys) ∙ ap (λ (t : T). sums_from t ys) (op_identity a)

      pub reduce-Merges :
          Merges
            (accumulate_reduce binary_op unary_transform_op)
            (λ acc1 acc2 out1 out2. some (binary_op acc1 acc2, out1 ++ out2))
            identity
      unfolding Merges
      reduce-Merges acc xs ys =
          rw
            (
              accumulate_reduce_lem acc xs,
              accumulate_reduce_lem identity ys,
              accumulate_reduce_lem acc (xs ++ ys),
            )
            (rw
              (
                map-append {A = A} (λ _. tt {0}) xs ys,
                sum_from-append acc xs ys,
                sum_from-merge (sum_from acc xs) ys,
              )
              refl)

      scan-Merges :
          (policy : ExecutionPolicy)
          → assert_policy policy ≡ true
          → Merges
              (accumulate_scan binary_op unary_transform_op)
              (combine_scan policy binary_op checked_out)
              identity
      unfolding Merges combine_scan combined transform_half transform is_global_destination
      scan-Merges policy valid acc xs ys =
          rw
            (
              accumulate_scan_lem acc xs,
              accumulate_scan_lem identity ys,
              accumulate_scan_lem acc (xs ++ ys),
              loop_generic-map true (binary_op (sum_from acc xs)) policy (sums_from identity ys)
                  valid,
            )
            (rw
              (
                sums_from-append acc xs ys,
                sum_from-append acc xs ys,
                sum_from-merge (sum_from acc xs) ys,
                sums_from-merge (sum_from acc xs) ys,
              )
              refl)

      -- For an associative binary_op with a right identity, under a policy that assert_policy
      -- accepts, transform_reduce ends and returns the transformed elements combined from the
      -- left, whichever threads the scheduler serialized.
      pub transform_reduce-sum_from :
          (policy : ExecutionPolicy) (serialized : List Bool → Bool) (is_global : Bool)
          (xs : List A)
          → assert_policy policy ≡ true
          → transform_reduce policy serialized is_global identity binary_op unary_transform_op xs
            ≡ some (sum_from identity xs)
      unfolding transform_reduce accumulated
      transform_reduce-sum_from policy serialized is_global xs valid =
          ap accumulated (
            reduce_generic-apply_iterators is_global
              (accumulate_reduce binary_op unary_transform_op)
              (λ acc1 acc2 out1 out2. some (binary_op acc1 acc2, out1 ++ out2)) identity policy
              serialized identity xs valid reduce-Merges)
          ∙ ap (λ (r : T × List (Unit {0})). some r.0) (accumulate_reduce_lem identity xs)

      -- As a list.
      pub transform_inclusive_scan-sums_from :
          (policy : ExecutionPolicy) (serialized : List Bool → Bool) (is_global : Bool) (init : T)
          (xs : List A)
          → assert_policy policy ≡ true
          → transform_inclusive_scan policy serialized is_global identity binary_op
              unary_transform_op checked_out init xs
            ≡ some (sums_from init xs)
      unfolding transform_inclusive_scan written
      transform_inclusive_scan-sums_from policy serialized is_global init xs valid =
          ap written (
            reduce_generic-apply_iterators (is_global || is_global_destination checked_out)
              (accumulate_scan binary_op unary_transform_op)
              (combine_scan policy binary_op checked_out) identity policy serialized init xs valid
              (scan-Merges policy valid))
          ∙ ap (λ (r : T × List T). some r.1) (accumulate_scan_lem init xs)

      -- For an associative binary_op with a right identity, under a policy that assert_policy
      -- accepts, transform_inclusive_scan to a checked-out destination ends and writes one
      -- element for each of the input, the i-th being init combined with the transformed elements
      -- 0 to i, whichever threads the scheduler serialized.
      pub transform_inclusive_scan-get_elem? :
          (policy : ExecutionPolicy) (serialized : List Bool → Bool) (is_global : Bool) (init : T)
          (xs : List A)
          → assert_policy policy ≡ true
          → (out : List T) × (transform_inclusive_scan policy serialized is_global identity
                binary_op unary_transform_op checked_out init xs
              ≡ some out)
            × (length out ≡ length xs)
            × ((i : ℕ) → i < length xs → get_elem? out i ≡ some (sum_from init (take (suc i) xs)))
      transform_inclusive_scan-get_elem? policy serialized is_global init xs valid = (
        sums_from init xs,
        transform_inclusive_scan-sums_from policy serialized is_global init xs valid,
        length-sums_from init xs,
        get_elem?-sums_from init xs,
      )
