-- ===== src/Container/GlobalVector/Operations.antt =====
-- include/ityr/container/global_vector.hpp: the operations and the list of the elements.
use itoyori.Prelude.{
  ℕ, zero, suc, ◌+◌, ◌-◌, ◌≤◌, ◌<◌, ◌≡◌, refl, ap, ap₂, sym, ◌∙◌, inl, inr, List, [], ◌∷◌, ◌++◌,
  Option, none, some, length, take, drop, ltb, ◌==◌, lt→ltb, ltb→lt, Bool-cases, Option-cases,
  subst, ltb→ge, take-append-drop, length-take, ==_iff, arith, length-append,
}
use Prim.{tt}
use mathlib.Core.List.{append-nil}
use itoyori.Container.GlobalVector
use itoyori.Container.GlobalVector.{
  Options, copies, construct_cells, destruct_cells, move_cells, free_mem, construct_elems,
  construct_elems_from_iter, destruct_elems, cells_of, write_back, relocate, free_if_any, next_size,
  realloc_mem, grow_if, extend, shrink, resize, push_back, pop_back, clear, destroy, reserve,
}
use itoyori.Container.GlobalVector.Growth.{
  IsVector, placed, placed-IsVector, taken, taken-IsVector, room_for_one, grow_if-IsVector,
  realloc_mem-IsVector,
}
use itoyori.Container.GlobalVector.Cells.{
  layout, destruct_cells-layout, free_mem-copies, construct_elems-cells, destruct_elems-cells,
  length-copies,
}

module _ {A : Type 0} where
  empty_list : (xs : List A) → length xs ≡ 0 → [] ≡ xs
  empty_list [] e = refl
  empty_list (x ∷ xs) e = absurd (omega (arith, e))

  take_all : (n : ℕ) (xs : List A) → length xs ≤ n → take n xs ≡ xs
  take_all zero [] h = refl
  take_all zero (x ∷ xs) h = absurd (omega arith)
  take_all (suc n) [] h = refl
  take_all (suc n) (x ∷ xs) h = ap (λ rest. x ∷ rest) (take_all n xs (omega arith))

  -- What a resize leaves.
  unfoldable pub resized : ℕ → A → List A → List A
  resized count value xs = take count xs ++ copies (count - length xs) value

  resized-longer :
      (count n : ℕ) (value : A) (xs : List A)
      → n ≡ length xs
      → n ≤ count
      → xs ++ copies (count - n) value ≡ resized count value xs
  unfolding resized
  resized-longer count n value xs e h =
      ap₂ (λ ys m. ys ++ copies (count - m) value) (sym (take_all count xs (omega (arith, e)))) e

  resized-shorter :
      (count : ℕ) (value : A) (xs : List A)
      → count ≤ length xs
      → take count xs ≡ resized count value xs
  unfolding resized copies
  resized-shorter count value xs h =
      sym (append-nil (take count xs))
      ∙ ap (λ (m : ℕ). take count xs ++ copies m value) (none_left h)
    where
      none_left : count ≤ length xs → 0 ≡ count - length xs
      none_left le = omega arith

  fresh-IsVector :
      (opts : Options) (n : ℕ) (xs : List A)
      → 0 < opts.cutoff_count
      → length xs ≡ 0
      → IsVector
          (record { opts = opts; block = some (copies n none); end = 0; reserved_end = n })
          xs
  unfolding cells_of layout
  fresh-IsVector opts n xs positive e =
      subst
        (IsVector (record { opts = opts; block = some (copies n none); end = 0; reserved_end = n }))
        (empty_list xs e)
        (record {
          room = n;
          end_is = refl;
          reserved_end_is = omega arith;
          cells_are = refl;
          positive = positive;
        })

  unfoldable pub Gives : Option (GlobalVector.GlobalVector A) → List A → Type 0
  Gives o ys = (w : GlobalVector.GlobalVector A) × (o ≡ some w) × IsVector w ys

  pub push_back-IsVector :
      (value : A) {v : GlobalVector.GlobalVector A} {xs : List A}
      → IsVector v xs
      → Gives (push_back value v) (xs ++ (value ∷ []))
  unfolding Gives push_back
  push_back-IsVector value {v} {xs} r =
      let (w, e, r', h) =
        grow_if-IsVector (v.end == v.reserved_end) (v.end + 1) r (omega (arith, r.end_is))
          (room_for_one r) in
      let room = one_left r.end_is r'.reserved_end_is h in
      (
        record w {
          block = write_back w.block (layout (xs ++ (value ∷ [])) (r'.room - 1));
          end = w.end + 1;
        },
        rw (e, placed r' (value ∷ []) room) refl,
        placed-IsVector r' (value ∷ []) (w.end + 1) room refl,
      )
    where
      one_left : {a b c d : ℕ} → a ≡ c → b ≡ c + d → a + 1 ≤ b → 1 ≤ d
      one_left e1 e2 h = omega arith

  extend-IsVector :
      (count : ℕ) (value : A) {v : GlobalVector.GlobalVector A} {xs : List A}
      → IsVector v xs
      → v.end ≤ count
      → count ≤ v.reserved_end
      → Gives (extend count value v) (xs ++ copies (count - v.end) value)
  unfolding Gives extend
  extend-IsVector count value {v} {xs} r low high =
      let ys = copies (count - v.end) value in
      let n = length-copies (count - v.end) value in
      let room : length ys ≤ r.room = omega (arith, n, r.end_is, r.reserved_end_is) in
      (
        record v {
          block = write_back v.block (layout (xs ++ ys) (r.room - length ys));
          end = count;
        },
        rw
            (
              construct_elems-cells v.opts r.positive v.end (count - v.end) value
                  (cells_of v.block),
              placed r ys room,
            )
            refl,
        placed-IsVector r ys count room (omega (arith, n)),
      )

  shrink-IsVector :
      {v : GlobalVector.GlobalVector A} (xs ys : List A)
      → IsVector v (xs ++ ys)
      → Gives (shrink (length xs) v) xs
  unfolding Gives shrink
  shrink-IsVector {v} xs ys r =
      let n = length-append xs ys in
      let count : v.end - length xs ≡ length ys = omega (arith, r.end_is, n) in
      (
        record v { block = write_back v.block (layout xs (length ys + r.room)); end = length xs },
        rw
            (
              destruct_elems-cells v.opts r.positive (length xs) (v.end - length xs)
                  (cells_of v.block),
              count,
              taken xs ys r,
            )
            refl,
        taken-IsVector xs ys r (length xs) refl,
      )

  pub pop_back-IsVector :
      {v : GlobalVector.GlobalVector A} (xs : List A) (last : A)
      → IsVector v (xs ++ (last ∷ []))
      → Gives (pop_back v) xs
  unfolding Gives pop_back
  pop_back-IsVector {v} xs last r =
      let n = length-append xs (last ∷ []) in
      let size : v.end - 1 ≡ length xs = omega (arith, r.end_is, n) in
      (
        record v { block = write_back v.block (layout xs (1 + r.room)); end = v.end - 1 },
        rw (lt→ltb 0 v.end (omega (arith, r.end_is, n)), size, taken xs (last ∷ []) r) refl,
        taken-IsVector xs (last ∷ []) r (v.end - 1) size,
      )

  pub clear-IsVector :
      {v : GlobalVector.GlobalVector A} {xs : List A} → IsVector v xs → Gives (clear v) []
  unfolding Gives clear
  clear-IsVector {v} {xs} r = (
    record v { block = write_back v.block (layout [] (length xs + r.room)); end = 0 },
    rw (destruct_elems-cells v.opts r.positive 0 v.end (cells_of v.block), r.end_is, taken [] xs r)
        refl,
    taken-IsVector [] xs r 0 refl,
  )

  pub reserve-IsVector :
      (new_cap : ℕ) {v : GlobalVector.GlobalVector A} {xs : List A}
      → IsVector v xs
      → Gives (reserve new_cap v) xs
  unfolding Gives reserve
  reserve-IsVector new_cap {v} {xs} r = elim (Bool-cases (v.reserved_end == 0)) [
    | inl null ↦ elim (Bool-cases (ltb 0 new_cap)) [
      | inl more ↦ (
        record v { block = some (copies new_cap none); end = 0; reserved_end = new_cap },
        rw (null, more) refl,
        fresh-IsVector v.opts new_cap xs r.positive
            (omega (arith, (==_iff v.reserved_end 0).0 null, r.reserved_end_is)),
      )
      | inr no_more ↦ (v, rw (null, no_more) refl, r)
    ]
    | inr held ↦ elim (Bool-cases (ltb v.reserved_end new_cap)) [
      | inl more ↦
          let larger = ltb→lt v.reserved_end new_cap more in
          let (w, e, valid, capacity) =
            realloc_mem-IsVector new_cap r (omega (arith, r.reserved_end_is)) in
          (w, rw (held, more) e, valid)
      | inr fits ↦ (v, rw (held, fits) refl, r)
    ]
  ]

  pub resize-IsVector :
      (count : ℕ) (value : A) {v : GlobalVector.GlobalVector A} {xs : List A}
      → IsVector v xs
      → Gives (resize count value v) (resized count value xs)
  unfolding Gives resize
  resize-IsVector count value {v} {xs} r = elim (Bool-cases (ltb v.end count)) [
    | inl more ↦
        let below = ltb→lt v.end count more in
        let (w, e, r', h) =
          grow_if-IsVector (ltb v.reserved_end count) count r (omega (arith, r.end_is))
            (λ enough. ltb→ge v.reserved_end count enough) in
        let low : w.end ≤ count = omega (arith, r.end_is, r'.end_is) in
        let (w', e', r'') = extend-IsVector count value r' low h in
        (
          w',
          rw (more, e) e',
          subst (IsVector w') (resized-longer count w.end value xs r'.end_is low) r'',
        )
    | inr not_more ↦ elim (Bool-cases (ltb count v.end)) [
      | inl fewer ↦
          let below = ltb→lt count v.end fewer in
          let size : length (take count xs) ≡ count =
            omega (arith, length-take count xs, r.end_is) in
          let (w, e, r') =
            shrink-IsVector (take count xs) (drop count xs)
              (subst (IsVector v) (sym (take-append-drop count xs)) r) in
          (
            w,
            rw (not_more, fewer) (ap (λ n. shrink n v) (sym size) ∙ e),
            subst (IsVector w) (resized-shorter count value xs (omega (arith, r.end_is))) r',
          )
      | inr same ↦ (
        v,
        rw (not_more, same) refl,
        subst (IsVector v)
            (sym (take_all count xs (omega (arith, ltb→ge count v.end same, r.end_is)))
              ∙ resized-shorter count value xs
                  (omega (arith, ltb→ge v.end count not_more, r.end_is)))
            r,
      )
    ]
  ]

  pub destroy-done :
      {v : GlobalVector.GlobalVector A} {xs : List A} → IsVector v xs → destroy v ≡ some tt
  unfolding destroy cells_of layout
  destroy-done {v} {xs} r = elim (Option-cases v.block) [
    | inl e ↦ rw e refl
    | inr (cells, e) ↦
        let filled : cells ≡ layout xs r.room = ap cells_of (sym e) ∙ r.cells_are in
        rw
          (
            e,
            r.end_is,
            r.reserved_end_is,
            destruct_elems-cells v.opts r.positive 0 (length xs) cells,
            filled,
            destruct_cells-layout [] xs (length xs + r.room) r.room refl,
            free_mem-copies A (length xs + r.room),
          )
          refl
  ]
