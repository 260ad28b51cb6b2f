-- ===== src/Container/GlobalVector.antt =====
-- include/ityr/container/global_vector.hpp: a vector that is not collective, of elements whose type has
-- a destructor that does something. `block` is the memory from begin_ to reserved_end_, in which a cell
-- holds an object or is raw; `none` is a null begin_. end_ and reserved_end_ are counted from begin_. An
-- operation is `none` if a check of the source fails, if it constructs over an object, if it reads,
-- moves or destroys a raw cell, or if it frees memory with objects in it.
pub mod Cells
pub mod Growth
pub mod Operations
pub mod Runs
mod Tests
use itoyori.Prelude.{
  ℕ, zero, suc, ◌+◌, ◌-◌, ◌*◌, ◌%◌, ◌^◌, max, List, [], ◌∷◌, Bool, true, false, Option, none, some,
  length, ltb, leb, ◌==◌, if◌then◌else◌,
}
use Prim.{Unit, tt}
use itoyori.Pattern.SerialLoop.{SequencedPolicy, ParallelPolicy}
use itoyori.Pattern.ParallelLoop.{ExecutionPolicy, sequenced, parallel, loop_generic}

infixl 5 ◌>>=◌
abbrev pub ◌>>=◌ : {A B : Type 0} → Option A → (A → Option B) → Option B
none >>= f = none
some a >>= f = f a

pub record Options : Type 0 where
  pub parallel_construct : Bool
  pub parallel_destruct : Bool
  pub cutoff_count : ℕ

-- The policy of the loops that construct or destroy.
unfoldable pub policy_of : Bool → ℕ → ExecutionPolicy
policy_of true cutoff = parallel (record { cutoff_count = cutoff; checkout_count = cutoff })
policy_of false cutoff = sequenced (record { checkout_count = cutoff })

module _ {A : Type 0} where
  -- `count` elements that are alike.
  unfoldable pub copies : ℕ → A → List A
  copies zero a = []
  copies (suc n) a = a ∷ copies n a

  -- Construction of the values from the cell at an offset on.
  unfoldable pub construct_cells : ℕ → List A → List (Option A) → Option (List (Option A))
  construct_cells zero [] cells = some cells
  construct_cells zero (v ∷ vs) [] = none
  construct_cells zero (v ∷ vs) (some a ∷ cells) = none
  construct_cells zero (v ∷ vs) (none ∷ cells) = do
    rest ← construct_cells zero vs cells
    some (some v ∷ rest)
  construct_cells (suc offset) vs [] = none
  construct_cells (suc offset) vs (c ∷ cells) = do
    rest ← construct_cells offset vs cells
    some (c ∷ rest)

  unfoldable pub destruct_cells : ℕ → ℕ → List (Option A) → Option (List (Option A))
  destruct_cells zero zero cells = some cells
  destruct_cells zero (suc n) [] = none
  destruct_cells zero (suc n) (none ∷ cells) = none
  destruct_cells zero (suc n) (some a ∷ cells) = do
    rest ← destruct_cells zero n cells
    some (none ∷ rest)
  destruct_cells (suc offset) n [] = none
  destruct_cells (suc offset) n (c ∷ cells) = do
    rest ← destruct_cells offset n cells
    some (c ∷ rest)

  -- The elements that move iterators over the first `n` cells give.
  unfoldable pub move_cells : ℕ → List (Option A) → Option (List A)
  move_cells zero cells = some []
  move_cells (suc n) [] = none
  move_cells (suc n) (none ∷ cells) = none
  move_cells (suc n) (some a ∷ cells) = do rest ← move_cells n cells; some (a ∷ rest)

  -- `free_mem` of a block of that many cells.
  unfoldable pub free_mem : ℕ → List (Option A) → Option (Unit {0})
  free_mem zero [] = some tt
  free_mem zero (c ∷ cells) = none
  free_mem (suc n) [] = none
  free_mem (suc n) (some a ∷ cells) = none
  free_mem (suc n) (none ∷ cells) = free_mem n cells

pub record GlobalVector (A : Type 0) : Type 0 where
  pub opts : Options
  pub block : Option (List (Option A))
  pub end : ℕ
  pub reserved_end : ℕ

module _ {A : Type 0} where
  -- A null pointer is only used for empty ranges.
  unfoldable pub cells_of : Option (List (Option A)) → List (Option A)
  cells_of none = []
  cells_of (some cells) = cells

  -- Writes keep a null pointer null.
  unfoldable pub write_back : Option (List (Option A)) → List (Option A) → Option (List (Option A))
  write_back none cells = none
  write_back (some old) cells = some cells

  unfoldable pub empty_vector : Options → GlobalVector A
  empty_vector opts = record { opts = opts; block = none; end = 0; reserved_end = 0 }

  -- `construct_elems` of `count` copies, in cells at an offset.
  unfoldable pub construct_elems : Options → ℕ → ℕ → A → List (Option A) → Option (List (Option A))
  construct_elems opts offset count value cells = do
    values ←
        loop_generic true (λ _. value) (policy_of opts.parallel_construct opts.cutoff_count)
          (copies count (tt {0}))
    construct_cells offset values cells

  unfoldable pub construct_elems_from_iter :
      Options → List A → List (Option A) → Option (List (Option A))
  construct_elems_from_iter opts values cells = do
    constructed ←
        loop_generic true (λ v. v) (policy_of opts.parallel_construct opts.cutoff_count) values
    construct_cells 0 constructed cells

  unfoldable pub destruct_elems : Options → ℕ → ℕ → List (Option A) → Option (List (Option A))
  destruct_elems opts offset count cells = do
    visited ←
        loop_generic true (λ u. u) (policy_of opts.parallel_destruct opts.cutoff_count)
          (copies count (tt {0}))
    destruct_cells offset (length visited) cells

  unfoldable pub next_size : ℕ → GlobalVector A → ℕ
  next_size least v = max least ((v.end * 2) % 2 ^ 64)

  -- The elements go to the new cells and their old objects are destroyed: the new and the old cells.
  unfoldable pub relocate :
      Options → ℕ → List (Option A) → List (Option A) → Option (List (Option A) × List (Option A))
  relocate opts count old fresh =
      if ltb 0 count
      then (do
        values ← move_cells count old
        filled ← construct_elems_from_iter opts values fresh
        left ← destruct_elems opts 0 count old
        some (filled, left))
      else some (fresh, old)

  unfoldable pub free_if_any : ℕ → List (Option A) → Option (Unit {0})
  free_if_any capacity cells = if ltb 0 capacity then free_mem capacity cells else some tt

  unfoldable pub realloc_mem : ℕ → GlobalVector A → Option (GlobalVector A)
  realloc_mem count v = do
    r ← relocate v.opts v.end (cells_of v.block) (copies count none)
    u ← free_if_any v.reserved_end r.1
    some (record v { block = some r.0; reserved_end = count })

  unfoldable pub reserve : ℕ → GlobalVector A → Option (GlobalVector A)
  reserve new_cap v =
      if v.reserved_end == 0
      then (if ltb 0 new_cap
          then some
              (record v { block = some (copies new_cap none); end = 0; reserved_end = new_cap })
          else some v)
      else if ltb v.reserved_end new_cap
      then realloc_mem new_cap v
      else some v

  -- The step of `resize_impl` and `push_back_impl` that finds room for a size.
  unfoldable pub grow_if : Bool → ℕ → GlobalVector A → Option (GlobalVector A)
  grow_if true least v = realloc_mem (next_size least v) v
  grow_if false least v = some v

  -- What is constructed behind the end, with the room that there is.
  unfoldable pub extend : ℕ → A → GlobalVector A → Option (GlobalVector A)
  extend count value v = do
    cells ← construct_elems v.opts v.end (count - v.end) value (cells_of v.block)
    some (record v { block = write_back v.block cells; end = count })

  unfoldable pub shrink : ℕ → GlobalVector A → Option (GlobalVector A)
  shrink count v = do
    cells ← destruct_elems v.opts count (v.end - count) (cells_of v.block)
    some (record v { block = write_back v.block cells; end = count })

  unfoldable pub resize : ℕ → A → GlobalVector A → Option (GlobalVector A)
  resize count value v =
      if ltb v.end count
      then (do w ← grow_if (ltb v.reserved_end count) count v; extend count value w)
      else if ltb count v.end
      then shrink count v
      else some v

  -- `push_back_impl`; the new object is constructed in place by no loop.
  unfoldable pub push_back : A → GlobalVector A → Option (GlobalVector A)
  push_back value v = do
    w ← grow_if (v.end == v.reserved_end) (v.end + 1) v
    cells ← construct_cells w.end (value ∷ []) (cells_of w.block)
    some (record w { block = write_back w.block cells; end = w.end + 1 })

  unfoldable pub pop_back : GlobalVector A → Option (GlobalVector A)
  pop_back v =
      if ltb 0 v.end
      then (do
        cells ← destruct_cells (v.end - 1) 1 (cells_of v.block)
        some (record v { block = write_back v.block cells; end = v.end - 1 }))
      else none

  unfoldable pub clear : GlobalVector A → Option (GlobalVector A)
  clear v = do
    cells ← destruct_elems v.opts 0 v.end (cells_of v.block)
    some (record v { block = write_back v.block cells; end = 0 })

  -- The destructor.
  unfoldable pub destroy : GlobalVector A → Option (Unit {0})
  destroy v = elim v.block [
    | none ↦ some tt
    | some cells ↦ do left ← destruct_elems v.opts 0 v.end cells; free_mem v.reserved_end left
  ]
