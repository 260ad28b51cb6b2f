-- ===== src/Ito/WsQueue/Contents.antt =====
-- What a queue holds, from its base to its top; when it is valid; the results of its operations.
use itoyori.Prelude.{
  ◌/◌, ◌≤◌, ◌<◌, ◌≡◌, refl, sym, ap, ◌∙◌, Bool, true, false, List, [], ◌∷◌, ◌++◌, Option, none,
  some, arith, leb→le, not, length, ◌&&◌,
}
use mathlib.Core.Bool.{true≢false}
use itoyori.Ito.WsQueue.{Queue, create, is_empty}
use itoyori.Ito.WsQueue.Ranges.{range, range-empty}

pub &&-both : (a b : Bool) → (a && b) ≡ true → (a ≡ true) × (b ≡ true)
&&-both true b e = (refl, e)
&&-both false b e = absurd (true≢false (sym e))

pub not-true : (a : Bool) → not a ≡ true → a ≡ false
not-true true e = absurd (true≢false (sym e))
not-true false e = refl

module _ {A : Type 0} where
  -- The function on each element in turn.
  abbrev pub fold : {S : Type 0} → (A → S → S) → List A → S → S
  fold f [] s = s
  fold f (x ∷ xs) s = fold f xs (f x s)

  abbrev pub contents : Queue A → List A
  contents q = range q.base q.top q.entries

  pub record IsValid (q : Queue A) : Type 0 where
    pub ordered : q.base ≤ q.top
    pub bounded : q.top ≤ q.n_entries
    pub slots : length q.entries ≡ q.n_entries
    pub start : q.initial_pos ≤ q.n_entries
    pub known_empty : q.enable_pass ≡ false → q.local_empty ≡ true → q.top ≡ q.base

  -- An entry, or none, as a list.
  abbrev pub entries_of : Option A → List A
  entries_of none = []
  entries_of (some x) = x ∷ []

  -- The result of a push: the entry is on top of what was there, or there was no slot left.
  abbrev pub Pushed : A → Queue A → Option (Queue A) → Type 0
  Pushed x q none = (q.top ≡ q.n_entries) × (q.base ≡ 0)
  Pushed x q (some q') = IsValid q' × (contents q' ≡ contents q ++ (x ∷ []))

  -- The result of a pop: what was on top, or nothing of an empty queue.
  abbrev pub Popped : Queue A → Option A × Queue A → Type 0
  Popped q (o, q') =
      IsValid q' × (contents q ≡ contents q' ++ entries_of o) × (o ≡ none → contents q ≡ [])

  -- The result of a theft: what was at the base, or nothing of an empty queue.
  abbrev pub Stolen : Queue A → Option A × Queue A → Type 0
  Stolen q (o, q') =
      IsValid q' × (contents q ≡ entries_of o ++ contents q') × (o ≡ none → contents q ≡ [])

  -- The result of a pass: the entry is at the base, unless the base is 0.
  abbrev pub Passed : A → Queue A → Bool × Queue A → Type 0
  Passed x q (false, q') = (q.base ≡ 0) × (q' ≡ q)
  Passed x q (true, q') = (0 < q.base) × IsValid q' × (contents q' ≡ x ∷ contents q)

  -- A new queue is valid and empty.
  pub create-Empty :
      (enable_pass : Bool) (l : List A)
      → IsValid (create enable_pass l (length l))
        × (contents (create enable_pass l (length l)) ≡ [])
  unfolding create
  create-Empty true l = (
    record {
      ordered = omega arith;
      bounded = omega arith;
      slots = refl;
      start = omega arith;
      known_empty = λ e f. refl;
    },
    range-empty (length l / 2) (length l / 2) l (omega arith),
  )
  create-Empty false l = (
    record {
      ordered = omega arith;
      bounded = omega arith;
      slots = refl;
      start = omega arith;
      known_empty = λ e f. refl;
    },
    refl,
  )

  pub nothing-Popped : (q : Queue A) → IsValid q → q.top ≤ q.base → Popped q (none, q)
  nothing-Popped q v h =
      let e = range-empty q.base q.top q.entries h in (v, e ∙ ap (◌++ []) (sym e), λ n. e)

  -- What the owner knows, or sees, to be empty.
  pub is_empty-top : (q : Queue A) → is_empty q ≡ true → q.top ≤ q.base
  unfolding is_empty
  is_empty-top q h = leb→le _ _ h
