-- ===== src/Ito/WsQueue/Slices.antt =====
-- The slots from one index up to another, under the writes of the queue.
use itoyori.Prelude.{
  ℕ, zero, suc, ◌+◌, ◌≤◌, ◌<◌, ◌≡◌, refl, sym, ap, ◌∙◌, ◌⊎◌, inl, inr, List, [], ◌∷◌, ◌++◌, none,
  some, arith, set, get_elem?, length, Option-cases, take, drop, length-set, get_elem?-set_self,
  get_elem?-set_ne,
}
use mathlib.Core.Option.{some-injective, none-ne-some}
use itoyori.Ito.WsQueue.{move_range}

module _ {A : Type 0} where
  abbrev pub slice : ℕ → ℕ → List A → List A
  slice b k l = take k (drop b l)

  pub slice-first :
      (b k : ℕ) (l : List A) (x : A)
      → get_elem? l b ≡ some x
      → slice b (suc k) l ≡ x ∷ slice (suc b) k l
  slice-first b k [] x h = absurd (none-ne-some x h)
  slice-first zero k (y ∷ l) x h = ap (λ (z : A). z ∷ take k l) (some-injective y x h)
  slice-first (suc b) k (y ∷ l) x h = slice-first b k l x h

  pub slice-last :
      (b k i : ℕ) (l : List A) (x : A)
      → i ≡ b + k
      → get_elem? l i ≡ some x
      → slice b (suc k) l ≡ slice b k l ++ (x ∷ [])
  slice-last b k i [] x e h = absurd (none-ne-some x h)
  slice-last zero zero zero (y ∷ l) x e h = ap (λ (z : A). z ∷ []) (some-injective y x h)
  slice-last zero zero (suc i) (y ∷ l) x e h = absurd (omega arith)
  slice-last zero (suc k) zero (y ∷ l) x e h = absurd (omega arith)
  slice-last zero (suc k) (suc i) (y ∷ l) x e h = ap (◌∷◌ y) (slice-last 0 k i l x (omega arith) h)
  slice-last (suc b) k zero (y ∷ l) x e h = absurd (omega arith)
  slice-last (suc b) k (suc i) (y ∷ l) x e h = slice-last b k i l x (omega arith) h

  -- A write outside of the slice.
  pub slice-set_outside :
      (b k i : ℕ) (l : List A) (x : A) → (i < b) ⊎ (b + k ≤ i) → slice b k (set l i x) ≡ slice b k l
  slice-set_outside b k i [] x h = refl
  slice-set_outside zero zero i (y ∷ l) x h = refl
  slice-set_outside zero (suc k) zero (y ∷ l) x h = absurd (ground arith)
  slice-set_outside zero (suc k) (suc i) (y ∷ l) x h =
      ap (◌∷◌ y) (slice-set_outside 0 k i l x (ground arith))
  slice-set_outside (suc b) k zero (y ∷ l) x h = refl
  slice-set_outside (suc b) k (suc i) (y ∷ l) x h = slice-set_outside b k i l x (ground arith)

  pub get_elem?-in : (l : List A) (i : ℕ) → i < length l → (x : A) × (get_elem? l i ≡ some x)
  get_elem?-in [] i h = elim h [ ]
  get_elem?-in (x ∷ l) zero h = (x, refl)
  get_elem?-in (x ∷ l) (suc i) h = get_elem?-in l i (omega arith)

  move_range-zero : (src dst : ℕ) (l : List A) → move_range 0 src dst l ≡ l
  unfolding move_range
  move_range-zero src dst l = refl

  -- The next element that is moved.
  move_range-some :
      (k src dst : ℕ) (l : List A) (x : A)
      → get_elem? l src ≡ some x
      → move_range (suc k) src dst l ≡ move_range k (suc src) (suc dst) (set l dst x)
  unfolding move_range
  move_range-some k src dst l x e = rw (move_range, e) refl

  move_range-none :
      (k src dst : ℕ) (l : List A) → get_elem? l src ≡ none → move_range (suc k) src dst l ≡ l
  unfolding move_range
  move_range-none k src dst l e = rw (move_range, e) refl

  -- The elements that a move passes by.
  pub get_elem?-move_range :
      (k src dst j : ℕ) (l : List A)
      → j < dst
      → get_elem? (move_range k src dst l) j ≡ get_elem? l j
  get_elem?-move_range zero src dst j l h =
      ap (λ (m : List A). get_elem? m j) (move_range-zero src dst l)
  get_elem?-move_range (suc k) src dst j l h = elim (Option-cases (get_elem? l src)) [
    | inl e ↦ ap (λ (m : List A). get_elem? m j) (move_range-none k src dst l e)
    | inr (x, e) ↦
        ap (λ (m : List A). get_elem? m j) (move_range-some k src dst l x e)
        ∙ get_elem?-move_range k (suc src) (suc dst) j (set l dst x) (omega arith)
        ∙ get_elem?-set_ne l x (λ (e : dst ≡ j). omega arith)
  ]

  pub length-move_range : (k src dst : ℕ) (l : List A) → length (move_range k src dst l) ≡ length l
  length-move_range zero src dst l = ap (length {A = A}) (move_range-zero src dst l)
  length-move_range (suc k) src dst l = elim (Option-cases (get_elem? l src)) [
    | inl e ↦ ap (length {A = A}) (move_range-none k src dst l e)
    | inr (x, e) ↦
        ap (length {A = A}) (move_range-some k src dst l x e)
        ∙ length-move_range k (suc src) (suc dst) (set l dst x)
        ∙ length-set l dst x
  ]

  -- A move within the slots keeps the elements, if its destination is not inside of what it moves.
  pub slice-move_range :
      (k src dst : ℕ) (l : List A)
      → src + k ≤ length l
      → dst + k ≤ length l
      → (dst ≤ src) ⊎ (src + k ≤ dst)
      → slice dst k (move_range k src dst l) ≡ slice src k l
  slice-move_range zero src dst l h f g = refl
  slice-move_range (suc k) src dst l h f g =
      let (x, e) = get_elem?-in l src (omega arith) in
      let l' = set l dst x in
      let n = length-set l dst x in
      let first : get_elem? (move_range k (suc src) (suc dst) l') dst ≡ some x =
        get_elem?-move_range k (suc src) (suc dst) dst l' (omega arith)
        ∙ get_elem?-set_self l dst x (omega arith) in
      let rest =
        slice-move_range k (suc src) (suc dst) l' (omega (arith, n)) (omega (arith, n))
          (ground arith)
        ∙ slice-set_outside (suc src) k dst l x (ground arith) in
      ap (slice dst (suc k)) (move_range-some k src dst l x e)
      ∙ slice-first dst k (move_range k (suc src) (suc dst) l') x first
      ∙ ap (◌∷◌ x) rest
      ∙ sym (slice-first src k l x e)
