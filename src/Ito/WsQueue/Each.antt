-- ===== src/Ito/WsQueue/Each.antt =====
-- The function of for_each_entry on each entry.
use itoyori.Prelude.{
  ℕ, zero, suc, ◌+◌, ◌-◌, ◌≤◌, ◌≡◌, refl, sym, ap, ◌∙◌, inl, inr, Bool, List, some, arith, not,
  get_elem?, length, Bool-cases, ◌&&◌,
}
use itoyori.Ito.WsQueue.{Queue, is_empty, for_each_entry, each_from}
use itoyori.Ito.WsQueue.Slices.{slice, slice-first, get_elem?-in}
use itoyori.Ito.WsQueue.Ranges.{range-empty}
use itoyori.Ito.WsQueue.Contents.{fold, contents, IsValid, &&-both, not-true, is_empty-top}

module _ {A : Type 0} where
  each_from-zero :
      {S : Type 0} (f : A → S → S) (i : ℕ) (l : List A) (s : S) → each_from f 0 i l s ≡ s
  unfolding each_from
  each_from-zero f i l s = refl

  each_from-some :
      {S : Type 0} (f : A → S → S) (k i : ℕ) (l : List A) (s : S) (x : A)
      → get_elem? l i ≡ some x
      → each_from f (suc k) i l s ≡ each_from f k (i + 1) l (f x s)
  unfolding each_from
  each_from-some f k i l s x e = rw (each_from, e) refl

  -- The loop over the slots is the fold over them.
  each-fold :
      {S : Type 0} (f : A → S → S) (k i : ℕ) (l : List A) (s : S)
      → i + k ≤ length l
      → each_from f k i l s ≡ fold f (slice i k l) s
  each-fold f zero i l s h = each_from-zero f i l s
  each-fold f (suc k) i l s h =
      let (x, e) = get_elem?-in l i (omega arith) in
      let n : i + 1 ≡ suc i = omega arith in
      (each_from-some f k i l s x e
        ∙ each-fold f k (i + 1) l (f x s) (omega arith)
        ∙ ap (λ (j : ℕ). fold f (slice j k l) (f x s)) n
        ∙ sym (ap (λ (xs : List A). fold f xs s) (slice-first i k l x e)))

  fold-nothing :
      {S : Type 0} (f : A → S → S) (q : Queue A) (s : S)
      → q.top ≤ q.base
      → s ≡ fold f (contents q) s
  fold-nothing f q s h =
      sym (ap (λ (xs : List A). fold f xs s) (range-empty q.base q.top q.entries h))

  -- for_each_entry on a valid queue calls its function on each entry that the queue holds, from
  -- the base to the top.
  pub for_each_entry-fold :
      {S : Type 0} (e : Bool) (f : A → S → S) (q : Queue A) (s : S)
      → IsValid q
      → for_each_entry e f q s ≡ fold f (contents q) s
  unfolding for_each_entry
  for_each_entry-fold e f q s v = elim (Bool-cases (not q.enable_pass && q.local_empty)) [
    | inl t ↦ rw t (
        let (p, k) = &&-both (not q.enable_pass) q.local_empty t in
        fold-nothing f q s (omega (arith, v.known_empty (not-true q.enable_pass p) k)))
    | inr g ↦ rw g (elim (Bool-cases (not e && is_empty q)) [
      | inl t ↦ rw t (fold-nothing f q s (is_empty-top q (&&-both _ _ t).1))
      | inr g' ↦ rw g' (
          each-fold f (q.top - q.base) q.base q.entries s
            (omega (arith, v.ordered, v.bounded, v.slots)))
    ])
  ]
