-- ===== src/Pattern/SerialLoop/Chunks.antt =====
-- include/ityr/pattern/serial_loop.hpp: the chunks of automatic checkout and the elements of the range.
use itoyori.Prelude.{
  ℕ, zero, suc, ◌<◌, ◌≡◌, refl, ap, sym, ◌∙◌, List, [], ◌∷◌, ◌++◌, Bool, true, false, some, take,
  drop, length, min, lt→ltb, arith, take-append-drop, length-drop,
}
use itoyori.Pattern.SerialLoop.{SequencedPolicy, apply_iterators, for_each_chunked, for_each_aux}

module _ {S A B : Type 0} (op : S → A → S × B) where
  pub apply_iterators-append :
      (s : S) (xs ys : List A)
      → apply_iterators op s (xs ++ ys) ≡ (
        (apply_iterators op (apply_iterators op s xs).0 ys).0,
        (apply_iterators op s xs).1 ++ (apply_iterators op (apply_iterators op s xs).0 ys).1,
      )
  unfolding apply_iterators
  apply_iterators-append s [] ys = refl
  apply_iterators-append s (x ∷ xs) ys =
      ap (λ (r : S × List B). (r.0, (op s x).1 ∷ r.1)) (apply_iterators-append (op s x).0 xs ys)

  -- A range is its first half and its second half, wherever it is cut.
  pub apply_iterators-cut :
      (n : ℕ) (s : S) (xs : List A)
      → (
        (apply_iterators op (apply_iterators op s (take n xs)).0 (drop n xs)).0,
        (apply_iterators op s (take n xs)).1
            ++ (apply_iterators op (apply_iterators op s (take n xs)).0 (drop n xs)).1,
      )
        ≡ apply_iterators op s xs
  apply_iterators-cut n s xs =
      sym (apply_iterators-append s (take n xs) (drop n xs))
      ∙ ap (apply_iterators op s) (take-append-drop n xs)

  chunked_empty :
      (fuel c : ℕ) (s : S) → for_each_chunked op (suc fuel) c s [] ≡ some (apply_iterators op s [])
  unfolding for_each_chunked apply_iterators
  chunked_empty fuel c s = refl

  chunked_step :
      (fuel c : ℕ) (s : S) (x : A) (xs : List A) (r : S × List B)
      → for_each_chunked op fuel c
          (apply_iterators op s (take (min (length (x ∷ xs)) c) (x ∷ xs))).0
          (drop (min (length (x ∷ xs)) c) (x ∷ xs))
        ≡ some r
      → for_each_chunked op (suc fuel) c s (x ∷ xs)
        ≡ some (r.0, (apply_iterators op s (take (min (length (x ∷ xs)) c) (x ∷ xs))).1 ++ r.1)
  unfolding for_each_chunked
  chunked_step fuel c s x xs r e = rw (e, lt→ltb 0 (length (x ∷ xs)) (omega arith)) refl

  chunked_lem :
      (fuel c : ℕ) (s : S) (xs : List A)
      → 0 < c
      → length xs < fuel
      → for_each_chunked op fuel c s xs ≡ some (apply_iterators op s xs)
  chunked_lem zero c s xs h f = elim f [ ]
  chunked_lem (suc fuel) c s [] h f = chunked_empty fuel c s
  chunked_lem (suc fuel) c s (x ∷ xs) h f =
      let n = min (length (x ∷ xs)) c in
      let s1 = (apply_iterators op s (take n (x ∷ xs))).0 in
      let rest = drop n (x ∷ xs) in
      let shorter = length-drop n (x ∷ xs) in
      chunked_step fuel c s x xs (apply_iterators op s1 rest)
        (chunked_lem fuel c s1 rest h (omega (arith, shorter)))
      ∙ ap some (apply_iterators-cut n s (x ∷ xs))

  -- With a positive checkout count, for_each_aux ends, and calls the operator on each element in order.
  pub for_each_aux-apply_iterators :
      (is_global : Bool) (policy : SequencedPolicy) (s : S) (xs : List A)
      → 0 < policy.checkout_count
      → for_each_aux op is_global policy s xs ≡ some (apply_iterators op s xs)
  unfolding for_each_aux
  for_each_aux-apply_iterators true policy s xs h =
      chunked_lem (suc (length xs)) policy.checkout_count s xs h (omega arith)
  for_each_aux-apply_iterators false policy s xs h = refl
