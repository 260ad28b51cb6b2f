-- ===== src/Pattern/SerialLoop.antt =====
-- include/ityr/pattern/serial_loop.hpp: the execution policies and the loop of one task over a range. A
-- range, with the ranges that run beside it, is the list of what its iterators refer to; an operator
-- changes a state `S`, which the source captures, and gives what it writes to its last iterator.
pub mod Chunks
use itoyori.Prelude.{
  ℕ, zero, suc, ◌-◌, List, [], ◌∷◌, ◌++◌, Bool, ◌&&◌, Option, none, some, take, drop, length, min,
  ltb, leb, if◌then◌else◌,
}

pub record SequencedPolicy : Type 0 where
  pub checkout_count : ℕ

pub record ParallelPolicy : Type 0 where
  pub cutoff_count : ℕ
  pub checkout_count : ℕ

-- `to_sequenced_policy` of a parallel policy.
unfoldable pub to_sequenced_policy : ParallelPolicy → SequencedPolicy
to_sequenced_policy opts = record { checkout_count = opts.checkout_count }

-- Whether the checks of `assert_policy` pass.
unfoldable pub assert_sequenced : SequencedPolicy → Bool
assert_sequenced opts = ltb 0 opts.checkout_count

unfoldable pub assert_parallel : ParallelPolicy → Bool
assert_parallel opts = ltb 0 opts.checkout_count && leb opts.checkout_count opts.cutoff_count

module _ {S A B : Type 0} (op : S → A → S × B) where
  -- `apply_iterators` on all of its elements.
  unfoldable pub apply_iterators : S → List A → S × List B
  apply_iterators s [] = (s, [])
  apply_iterators s (x ∷ xs) =
      let r = op s x in let rest = apply_iterators r.0 xs in (rest.0, r.1 ∷ rest.1)

  -- The loop of `for_each_aux` with automatic checkout, which takes `c` elements at a time; `none` if
  -- the fuel runs out.
  unfoldable pub for_each_chunked : ℕ → ℕ → S → List A → Option (S × List B)
  for_each_chunked zero c s xs = none
  for_each_chunked (suc fuel) c s xs =
      let n_ = min (length xs) c in
      let done = apply_iterators s (take n_ xs) in
      let rest = for_each_chunked fuel c done.0 (drop n_ xs) in
      if ltb 0 (length xs)
      then elim rest [ none ↦ none | some r ↦ some (r.0, done.1 ++ r.1) ]
      else some (s, [])

  -- `for_each_aux`: with automatic checkout for global iterators, else element by element.
  unfoldable pub for_each_aux : Bool → SequencedPolicy → S → List A → Option (S × List B)
  for_each_aux is_global policy s xs =
      if is_global
      then for_each_chunked (suc (length xs)) policy.checkout_count s xs
      else some (apply_iterators s xs)
