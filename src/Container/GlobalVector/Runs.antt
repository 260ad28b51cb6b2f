-- ===== src/Container/GlobalVector/Runs.antt =====
-- include/ityr/container/global_vector.hpp: sequences of operations, and a list that they act on.
use itoyori.Prelude.{
  ℕ, ◌≤◌, ◌<◌, ◌≡◌, refl, ap, subst, sym, ◌∙◌, List, [], ◌∷◌, ◌++◌, Option, none, some, length,
  arith,
}
use Prim.{Unit, tt}
use itoyori.Container.GlobalVector
use itoyori.Container.GlobalVector.{
  ◌>>=◌, Options, cells_of, copies, move_cells, empty_vector, resize, push_back, pop_back, clear,
  destroy, reserve,
}
use itoyori.Container.GlobalVector.Cells.{layout, move_cells-layout}
use itoyori.Container.GlobalVector.Growth.{IsVector}
use itoyori.Container.GlobalVector.Operations.{
  Gives, resized, push_back-IsVector, pop_back-IsVector, clear-IsVector, reserve-IsVector,
  resize-IsVector, destroy-done,
}

-- A call of a method.
pub data Operation (A : Type 0) : Type 0 where
  push : A → Operation A
  pop : Operation A
  set_size : ℕ → A → Operation A
  set_capacity : ℕ → Operation A
  empty : Operation A

module _ {A : Type 0} where
  unfoldable pub call :
      Operation A → GlobalVector.GlobalVector A → Option (GlobalVector.GlobalVector A)
  call (push value) v = push_back value v
  call pop v = pop_back v
  call (set_size count value) v = resize count value v
  call (set_capacity new_cap) v = reserve new_cap v
  call empty v = clear v

  unfoldable pub calls :
      List (Operation A) → GlobalVector.GlobalVector A → Option (GlobalVector.GlobalVector A)
  calls [] v = some v
  calls (o ∷ os) v = do w ← call o v; calls os w

  unfoldable pub without_last : List A → Option (List A)
  without_last [] = none
  without_last (x ∷ []) = some []
  without_last (x ∷ y ∷ ys) = do rest ← without_last (y ∷ ys); some (x ∷ rest)

  -- The same call on a list.
  unfoldable pub list_call : Operation A → List A → Option (List A)
  list_call (push value) xs = some (xs ++ (value ∷ []))
  list_call pop xs = without_last xs
  list_call (set_size count value) xs = some (resized count value xs)
  list_call (set_capacity new_cap) xs = some xs
  list_call empty xs = some []

  unfoldable pub list_calls : List (Operation A) → List A → Option (List A)
  list_calls [] xs = some xs
  list_calls (o ∷ os) xs = do ys ← list_call o xs; list_calls os ys

  -- Both fail, or the vector has the list's elements, no more than its capacity, and can be destroyed.
  unfoldable pub Agrees : Option (GlobalVector.GlobalVector A) → Option (List A) → Type 0
  Agrees none none = Unit
  Agrees none (some xs) = ⊥
  Agrees (some v) none = ⊥
  Agrees (some v) (some xs) =
      (v.end ≡ length xs)
      × (move_cells v.end (cells_of v.block) ≡ some xs)
      × (v.end ≤ v.reserved_end)
      × (destroy v ≡ some tt)

  -- The same with the invariant.
  unfoldable pub Matches : Option (GlobalVector.GlobalVector A) → Option (List A) → Type 0
  Matches none none = Unit
  Matches none (some xs) = ⊥
  Matches (some v) none = ⊥
  Matches (some v) (some xs) = IsVector v xs

  Gives-Matches :
      (o : Option (GlobalVector.GlobalVector A)) (xs : List A) → Gives o xs → Matches o (some xs)
  unfolding Gives Matches
  Gives-Matches o xs (w, e, valid) = subst (λ r. Matches r (some xs)) (sym e) valid

  data HasLast (xs : List A) : Type 0 where
    nothing : xs ≡ [] → HasLast xs
    last_of : (front : List A) (last : A) → xs ≡ front ++ (last ∷ []) → HasLast xs

  without_last-append :
      (front : List A) (last : A) → without_last (front ++ (last ∷ [])) ≡ some front
  unfolding without_last
  without_last-append [] last = refl
  without_last-append (x ∷ []) last = refl
  without_last-append (x ∷ y ∷ ys) last = rw (without_last-append (y ∷ ys) last) refl

  HasLast-cases : (xs : List A) → HasLast xs
  HasLast-cases [] = nothing refl
  HasLast-cases (x ∷ xs) = elim (HasLast-cases xs) [
    | nothing e ↦ last_of [] x (ap (λ rest. x ∷ rest) e)
    | last_of front last e ↦ last_of (x ∷ front) last (ap (λ rest. x ∷ rest) e)
  ]

  pop_back-empty :
      (v : GlobalVector.GlobalVector A) → IsVector v [] → Matches (pop_back v) (without_last [])
  unfolding pop_back Matches without_last
  pop_back-empty v r = subst (λ o. Matches o none) (sym (refused r.end_is)) tt
    where
      refused : v.end ≡ 0 → pop_back v ≡ none
      refused e = rw e refl

  pop_back-Matches :
      (v : GlobalVector.GlobalVector A) (xs : List A)
      → IsVector v xs
      → Matches (pop_back v) (without_last xs)
  pop_back-Matches v xs r = elim (HasLast-cases xs) [
    | nothing e ↦
        subst (λ ys. Matches (pop_back v) (without_last ys)) (sym e)
          (pop_back-empty v (subst (IsVector v) e r))
    | last_of front last e ↦
        subst (Matches (pop_back v)) (sym (ap without_last e ∙ without_last-append front last))
          (Gives-Matches (pop_back v) front (pop_back-IsVector front last (subst (IsVector v) e r)))
  ]

  call-Matches :
      (o : Operation A) (v : GlobalVector.GlobalVector A) (xs : List A)
      → IsVector v xs
      → Matches (call o v) (list_call o xs)
  unfolding call list_call
  call-Matches (push value) v xs r =
      Gives-Matches (push_back value v) (xs ++ (value ∷ [])) (push_back-IsVector value r)
  call-Matches pop v xs r = pop_back-Matches v xs r
  call-Matches (set_size count value) v xs r =
      Gives-Matches (resize count value v) (resized count value xs) (resize-IsVector count value r)
  call-Matches (set_capacity new_cap) v xs r =
      Gives-Matches (reserve new_cap v) xs (reserve-IsVector new_cap r)
  call-Matches empty v xs r = Gives-Matches (clear v) [] (clear-IsVector r)

  bind-Matches :
      (os : List (Operation A)) (o : Option (GlobalVector.GlobalVector A)) (s : Option (List A))
      → Matches o s
      → ((w : GlobalVector.GlobalVector A) (ys : List A)
          → IsVector w ys
          → Matches (calls os w) (list_calls os ys))
      → Matches (o >>= calls os) (s >>= list_calls os)
  unfolding Matches
  bind-Matches os none none h next = tt
  bind-Matches os none (some ys) h next = elim h [ ]
  bind-Matches os (some w) none h next = elim h [ ]
  bind-Matches os (some w) (some ys) h next = next w ys h

  calls-Matches :
      (os : List (Operation A)) (v : GlobalVector.GlobalVector A) (xs : List A)
      → IsVector v xs
      → Matches (calls os v) (list_calls os xs)
  unfolding calls list_calls Gives
  calls-Matches [] v xs r = Gives-Matches (some v) xs (v, refl, r)
  calls-Matches (o ∷ os) v xs r =
      bind-Matches os (call o v) (list_call o xs) (call-Matches o v xs r) (calls-Matches os)

  IsVector-Agrees :
      (v : GlobalVector.GlobalVector A) (xs : List A) → IsVector v xs → Agrees (some v) (some xs)
  unfolding Agrees
  IsVector-Agrees v xs r = (
    r.end_is,
    rw (r.end_is, r.cells_are) (move_cells-layout xs r.room),
    omega (arith, r.end_is, r.reserved_end_is),
    destroy-done r,
  )

  Matches-Agrees :
      (o : Option (GlobalVector.GlobalVector A)) (s : Option (List A)) → Matches o s → Agrees o s
  unfolding Matches Agrees
  Matches-Agrees none none h = tt
  Matches-Agrees none (some xs) h = elim h [ ]
  Matches-Agrees (some v) none h = elim h [ ]
  Matches-Agrees (some v) (some xs) h = IsVector-Agrees v xs h

  empty_vector-IsVector :
      (opts : Options) → 0 < opts.cutoff_count → IsVector {A = A} (empty_vector opts) []
  unfolding empty_vector cells_of layout copies
  empty_vector-IsVector opts positive = record {
    room = 0;
    end_is = refl;
    reserved_end_is = refl;
    cells_are = refl;
    positive = positive;
  }

  -- From an empty vector whose cutoff_count is positive, any sequence of push_back, pop_back,
  -- resize, reserve and clear ends as it does on a list: it fails exactly if it pops from an
  -- empty list, and otherwise the vector has the size and the elements of the list, no more of
  -- them than its capacity, and can be destroyed; no object is built over another, none is
  -- destroyed twice and no memory is freed with objects in it.
  pub calls-Agrees :
      (opts : Options) (os : List (Operation A))
      → 0 < opts.cutoff_count
      → Agrees (calls os (empty_vector opts)) (list_calls os [])
  calls-Agrees opts os positive =
      Matches-Agrees (calls os (empty_vector opts)) (list_calls os [])
        (calls-Matches os (empty_vector opts) [] (empty_vector-IsVector opts positive))
