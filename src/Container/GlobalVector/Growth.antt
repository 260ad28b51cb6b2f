-- ===== src/Container/GlobalVector/Growth.antt =====
-- include/ityr/container/global_vector.hpp: a vector that holds a list, and the room that growth gives it.
use itoyori.Prelude.{
  ℕ, ◌+◌, ◌-◌, ◌≤◌, ◌<◌, ◌≡◌, refl, ap, ap₂, inl, inr, List, [], ◌∷◌, ◌++◌, Bool, true, false,
  Option, none, some, length, ltb, ◌==◌, lt→ltb, Bool-cases, arith, length-append,
}
use Prim.{tt}
use itoyori.Container.GlobalVector
use itoyori.Container.GlobalVector.{
  Options, copies, construct_cells, destruct_cells, move_cells, free_mem, construct_elems,
  construct_elems_from_iter, destruct_elems, cells_of, write_back, relocate, free_if_any, next_size,
  realloc_mem, grow_if, extend, shrink, resize, push_back, pop_back, clear, destroy, reserve,
}
use itoyori.Container.GlobalVector.Cells.{
  layout, construct_cells-layout, destruct_cells-layout, move_cells-layout, free_mem-copies,
  length-layout, construct_elems_from_iter-cells, destruct_elems-cells,
}

free_if_any-layout : (A : Type 0) (n : ℕ) → free_if_any n (layout {A = A} [] n) ≡ some tt
unfolding free_if_any layout
free_if_any-layout A n = elim (Bool-cases (ltb 0 n)) [
  | inl h ↦ rw h (free_mem-copies A n)
  | inr h ↦ rw h refl
]

module _ {A : Type 0} where
  -- The vector holds the elements, in front of raw room.
  pub record IsVector (v : GlobalVector.GlobalVector A) (xs : List A) : Type 0 where
    pub room : ℕ
    pub end_is : v.end ≡ length xs
    pub reserved_end_is : v.reserved_end ≡ length xs + room
    pub cells_are : cells_of v.block ≡ layout xs room
    pub positive : 0 < v.opts.cutoff_count

  cells_of-write_back :
      (b : Option (List (Option A))) (cells : List (Option A))
      → length cells ≡ length (cells_of b)
      → cells_of (write_back b cells) ≡ cells
  unfolding cells_of write_back
  cells_of-write_back none [] e = refl
  cells_of-write_back none (c ∷ cells) e = absurd (omega (arith, e))
  cells_of-write_back (some old) cells e = refl

  relocate-layout :
      (opts : Options) (xs : List A) (room count : ℕ)
      → 0 < opts.cutoff_count
      → length xs ≤ count
      → relocate opts (length xs) (layout xs room) (copies count none)
        ≡ some (layout xs (count - length xs), layout [] (length xs + room))
  unfolding relocate layout
  relocate-layout opts [] room count positive h =
      ap₂ (λ (m n : ℕ). some (copies {A = Option A} m none, copies {A = Option A} n none))
        (omega arith) (omega arith)
  relocate-layout opts (x ∷ xs) room count positive h =
      rw
        (
          lt→ltb 0 (length (x ∷ xs)) (omega arith),
          move_cells-layout (x ∷ xs) room,
          construct_elems_from_iter-cells opts positive (x ∷ xs) (copies count none),
          construct_cells-layout [] (x ∷ xs) count (count - length (x ∷ xs)) (omega arith),
          destruct_elems-cells opts positive 0 (length (x ∷ xs)) (layout (x ∷ xs) room),
          destruct_cells-layout [] (x ∷ xs) (length (x ∷ xs) + room) room refl,
        )
        refl

  realloc_mem-layout :
      (count : ℕ) {v : GlobalVector.GlobalVector A} {xs : List A}
      → IsVector v xs
      → length xs ≤ count
      → realloc_mem count v
        ≡ some (record v { block = some (layout xs (count - length xs)); reserved_end = count })
  unfolding realloc_mem
  realloc_mem-layout count {v} {xs} r h =
      rw
        (
          r.end_is,
          r.reserved_end_is,
          r.cells_are,
          relocate-layout v.opts xs r.room count r.positive h,
          free_if_any-layout A (length xs + r.room),
        )
        refl

  next_size-le : (least : ℕ) (v : GlobalVector.GlobalVector A) → least ≤ next_size least v
  unfolding next_size
  next_size-le least v = omega arith

  pub realloc_mem-IsVector :
      (count : ℕ) {v : GlobalVector.GlobalVector A} {xs : List A}
      → IsVector v xs
      → length xs ≤ count
      → (w : GlobalVector.GlobalVector A) × (realloc_mem count v ≡ some w)
        × IsVector w xs
        × (w.reserved_end ≡ count)
  unfolding cells_of
  realloc_mem-IsVector count {v} {xs} r h = (
    record v { block = some (layout xs (count - length xs)); reserved_end = count },
    realloc_mem-layout count r h,
    record {
      room = count - length xs;
      end_is = r.end_is;
      reserved_end_is = omega arith;
      cells_are = refl;
      positive = r.positive;
    },
    refl,
  )

  -- With room, or after growth, there is place for a size.
  pub grow_if-IsVector :
      (full : Bool) (least : ℕ) {v : GlobalVector.GlobalVector A} {xs : List A}
      → IsVector v xs
      → length xs ≤ least
      → (full ≡ false → least ≤ v.reserved_end)
      → (w : GlobalVector.GlobalVector A) × (grow_if full least v ≡ some w)
        × IsVector w xs
        × (least ≤ w.reserved_end)
  unfolding grow_if
  grow_if-IsVector true least {v} {xs} r h roomy =
      let bound = next_size-le least v in
      let (w, e, valid, capacity) = realloc_mem-IsVector (next_size least v) r (omega arith) in
      (w, e, valid, omega (arith, capacity))
  grow_if-IsVector false least r h roomy = (_, refl, r, roomy refl)

  -- A vector whose cells are written again keeps its capacity.
  pub rewritten-IsVector :
      {v : GlobalVector.GlobalVector A} {xs : List A} (r : IsVector v xs) (ys : List A) (room n : ℕ)
      → n ≡ length ys
      → length ys + room ≡ length xs + r.room
      → IsVector (record v { block = write_back v.block (layout ys room); end = n }) ys
  rewritten-IsVector {v} {xs} r ys room n size total = record {
    room = room;
    end_is = size;
    reserved_end_is = omega (arith, r.reserved_end_is);
    cells_are = cells_of-write_back v.block (layout ys room) (same_length (ap length r.cells_are));
    positive = r.positive;
  }
    where
      same_length :
          length (cells_of v.block) ≡ length (layout xs r.room)
          → length (layout ys room) ≡ length (cells_of v.block)
      same_length e = omega (arith, e, length-layout ys room, length-layout xs r.room)

  pub placed :
      {v : GlobalVector.GlobalVector A} {xs : List A} (r : IsVector v xs) (ys : List A)
      → length ys ≤ r.room
      → construct_cells v.end ys (cells_of v.block) ≡ some (layout (xs ++ ys) (r.room - length ys))
  placed {v} {xs} r ys h =
      rw (r.end_is, r.cells_are)
        (construct_cells-layout xs ys r.room (r.room - length ys) (omega arith))

  pub placed-IsVector :
      {v : GlobalVector.GlobalVector A} {xs : List A} (r : IsVector v xs) (ys : List A) (n : ℕ)
      → length ys ≤ r.room
      → n ≡ v.end + length ys
      → IsVector
          (record v {
            block = write_back v.block (layout (xs ++ ys) (r.room - length ys));
            end = n;
          })
          (xs ++ ys)
  placed-IsVector {v} {xs} r ys n h size =
      rewritten-IsVector r (xs ++ ys) (r.room - length ys) n
        (omega (arith, size, r.end_is, length-append xs ys)) (omega (arith, length-append xs ys))

  pub taken :
      {v : GlobalVector.GlobalVector A} (xs ys : List A) (r : IsVector v (xs ++ ys))
      → destruct_cells (length xs) (length ys) (cells_of v.block)
        ≡ some (layout xs (length ys + r.room))
  taken xs ys r = rw r.cells_are (destruct_cells-layout xs ys (length ys + r.room) r.room refl)

  pub taken-IsVector :
      {v : GlobalVector.GlobalVector A} (xs ys : List A) (r : IsVector v (xs ++ ys)) (n : ℕ)
      → n ≡ length xs
      → IsVector
          (record v { block = write_back v.block (layout xs (length ys + r.room)); end = n })
          xs
  taken-IsVector xs ys r n size =
      rewritten-IsVector r xs (length ys + r.room) n size (omega (arith, length-append xs ys))

  pub room_for_one :
      {v : GlobalVector.GlobalVector A} {xs : List A}
      → IsVector v xs
      → (v.end == v.reserved_end) ≡ false
      → v.end + 1 ≤ v.reserved_end
  room_for_one {v} {xs} r spare =
      differ v.end v.reserved_end spare (omega (arith, r.end_is, r.reserved_end_is))
    where
      differ : (a b : ℕ) → (a == b) ≡ false → a ≤ b → a + 1 ≤ b
      differ a b ne le = ground arith
