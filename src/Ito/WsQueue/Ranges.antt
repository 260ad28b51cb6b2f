-- ===== src/Ito/WsQueue/Ranges.antt =====
-- The slots between two indices, as each operation of the queue changes one of the two.
use itoyori.Prelude.{
  ℕ, suc, ◌+◌, ◌-◌, ◌≤◌, ◌<◌, ◌≡◌, ap, ◌∙◌, ◌⊎◌, inl, inr, List, [], ◌∷◌, ◌++◌, some, arith, set,
  get_elem?, length, get_elem?-set_self,
}
use itoyori.Ito.WsQueue.{move_range}
use itoyori.Ito.WsQueue.Slices.{
  slice, slice-first, slice-last, slice-set_outside, get_elem?-in, slice-move_range,
}

module _ {A : Type 0} where
  abbrev pub range : ℕ → ℕ → List A → List A
  range b t l = slice b (t - b) l

  pub range-empty : (b t : ℕ) (l : List A) → t ≤ b → range b t l ≡ []
  range-empty b t l h = ap (λ (k : ℕ). slice b k l) (the-zero b t h)
    where
      the-zero : (b t : ℕ) → t ≤ b → t - b ≡ 0
      the-zero b t h = omega arith

  pub range-last :
      (b t : ℕ) (l : List A)
      → b < t
      → t ≤ length l
      → (x : A) × (get_elem? l (t - 1) ≡ some x) × (range b t l ≡ range b (t - 1) l ++ (x ∷ []))
  range-last b t l h f =
      let (x, e) = get_elem?-in l (t - 1) (omega arith) in
      let n : t - b ≡ suc (t - 1 - b) = omega arith in
      (x, e, ap (λ (k : ℕ). slice b k l) n ∙ slice-last b (t - 1 - b) (t - 1) l x (omega arith) e)

  pub range-first :
      (b t : ℕ) (l : List A)
      → b < t
      → t ≤ length l
      → (x : A) × (get_elem? l b ≡ some x) × (range b t l ≡ x ∷ range (b + 1) t l)
  range-first b t l h f =
      let (x, e) = get_elem?-in l b (omega arith) in
      let n : t - b ≡ suc (t - (b + 1)) = omega arith in
      let n2 : suc b ≡ b + 1 = omega arith in
      (
        x,
        e,
        ap (λ (k : ℕ). slice b k l) n
            ∙ slice-first b (t - (b + 1)) l x e
            ∙ ap (λ (b' : ℕ). x ∷ slice b' (t - (b + 1)) l) n2,
      )

  pub range-set_last :
      (b t : ℕ) (l : List A) (x : A)
      → b ≤ t
      → t < length l
      → range b (t + 1) (set l t x) ≡ range b t l ++ (x ∷ [])
  range-set_last b t l x h f =
      let n : t + 1 - b ≡ suc (t - b) = omega arith in
      ap (λ (k : ℕ). slice b k (set l t x)) n
      ∙ slice-last b (t - b) t (set l t x) x (omega arith) (get_elem?-set_self l t x f)
      ∙ ap (◌++ (x ∷ [])) (slice-set_outside b (t - b) t l x (inr (omega arith)))

  pub range-set_first :
      (b t : ℕ) (l : List A) (x : A)
      → 0 < b
      → b ≤ t
      → t ≤ length l
      → range (b - 1) t (set l (b - 1) x) ≡ x ∷ range b t l
  range-set_first b t l x g h f =
      let n : t - (b - 1) ≡ suc (t - b) = omega arith in
      let n2 : suc (b - 1) ≡ b = omega arith in
      ap (λ (k : ℕ). slice (b - 1) k (set l (b - 1) x)) n
      ∙ slice-first (b - 1) (t - b) (set l (b - 1) x) x
          (get_elem?-set_self l (b - 1) x (omega arith))
      ∙ ap (◌∷◌ x) (
          ap (λ (b' : ℕ). slice b' (t - b) (set l (b - 1) x)) n2
          ∙ slice-set_outside b (t - b) (b - 1) l x (inl (omega arith)))

  pub range-move_range :
      (b t b' t' : ℕ) (l : List A)
      → b ≤ t
      → t ≤ length l
      → t' ≤ length l
      → b' + t ≡ t' + b
      → (b' ≤ b) ⊎ (t ≤ b')
      → range b' t' (move_range (t - b) b b' l) ≡ range b t l
  range-move_range b t b' t' l h f f' e g =
      let n : t' - b' ≡ t - b = omega arith in
      ap (λ (k : ℕ). slice b' k (move_range (t - b) b b' l)) n
      ∙ slice-move_range (t - b) b b' l (omega arith) (omega arith) (ground arith)
