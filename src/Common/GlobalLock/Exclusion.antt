-- ===== src/Common/GlobalLock/Exclusion.antt =====
-- At most one caller is inside of the lock.
use itoyori.Prelude.{
  ℕ, ◌+◌, ◌≤◌, ◌≡◌, refl, ap, ◌∙◌, inl, inr, arith, List, [], ◌∷◌, length, length-append, ◌==◌,
  ==_iff, Bool-cases, false, ◌↔◌, if◌then◌else◌,
}
use itoyori.Common.GlobalLock.{
  Lock, Owner, outside, waiting, inside, Step, try, leave, prio_add, prio_poll, prio_leave,
  Reachable, start, next, trylock, priolock_add, priolock_poll, unlock, is_locked,
}

-- How many that the caller of `priolock` adds to the word, and how many of it are inside.
abbrev pub weight : Owner → ℕ
weight outside = 0
weight waiting = 1
weight inside = 1

abbrev pub entered : Owner → ℕ
entered outside = 0
entered waiting = 0
entered inside = 1

-- The word counts the holders and the caller of `priolock`, and at most one of them is inside.
pub record Exclusive (l : Lock) : Type 0 where
  pub counted : l.word ≡ length l.holders + weight l.owner
  pub single : length l.holders + entered l.owner ≤ 1

entered-weight : (o : Owner) → entered o ≤ weight o
entered-weight outside = omega arith
entered-weight waiting = omega arith
entered-weight inside = omega arith

try-Exclusive :
    (rank : ℕ) (l : Lock)
    → Exclusive l
    → Exclusive (record l {
      word = (trylock l.word).1;
      holders = if (trylock l.word).0 then rank ∷ l.holders else l.holders;
    })
unfolding trylock
try-Exclusive rank l e = elim (Bool-cases (l.word == 0)) [
  | inr f ↦ rw f e
  | inl t ↦
      let z = (==_iff l.word 0).0 t in
      let c = e.counted in
      let w = entered-weight l.owner in
      rw t (record { counted = omega arith; single = omega arith })
]

add-Exclusive :
    (l : Lock)
    → l.owner ≡ outside
    → Exclusive l
    → Exclusive (record l {
      word = (priolock_add l.word).1;
      owner = if (priolock_add l.word).0 then inside else waiting;
    })
unfolding priolock_add
add-Exclusive l h e =
    let c = e.counted in
    let n = e.single in
    let k = ap weight h in
    let k2 = ap entered h in
    elim (Bool-cases (l.word == 0)) [
      | inl t ↦
          let z = (==_iff l.word 0).0 t in
          rw t (record { counted = omega arith; single = omega arith })
      | inr f ↦ rw f (record { counted = omega arith; single = omega arith })
    ]

poll-Exclusive :
    (l : Lock)
    → l.owner ≡ waiting
    → Exclusive l
    → Exclusive (record l { owner = if priolock_poll l.word then inside else waiting })
unfolding priolock_poll
poll-Exclusive l h e =
    let c = e.counted in
    let n = e.single in
    let k = ap weight h in
    let k2 = ap entered h in
    elim (Bool-cases (l.word == 1)) [
      | inl t ↦
          let z = (==_iff l.word 1).0 t in
          rw t (record { counted = omega arith; single = omega arith })
      | inr f ↦ rw f (record { counted = omega arith; single = omega arith })
    ]

Step-Exclusive : {l l' : Lock} → Step l l' → Exclusive l → Exclusive l'
unfolding unlock
Step-Exclusive (try rank l) e = try-Exclusive rank l e
Step-Exclusive (leave rank before after l h) e =
    let c = e.counted in
    let n = e.single in
    let k = ap (length {A = ℕ}) h ∙ length-append before (rank ∷ after) in
    let k2 = length-append before after in record { counted = omega arith; single = omega arith }
Step-Exclusive (prio_add l h) e = add-Exclusive l h e
Step-Exclusive (prio_poll l h) e = poll-Exclusive l h e
Step-Exclusive (prio_leave l h) e =
    let c = e.counted in
    let n = e.single in
    let k = ap weight h in
    let k2 = ap entered h in record { counted = omega arith; single = omega arith }

-- In every reachable state of the lock, the word is the number of holders by lock and of callers
-- of priolock, and at most one of them is inside.
pub Reachable-Exclusive : (l : Lock) → Reachable l → Exclusive l
Reachable-Exclusive l start = record { counted = refl; single = omega arith }
Reachable-Exclusive l (next {l = k} r s) = Step-Exclusive s (Reachable-Exclusive k r)

nobody : (ranks : List ℕ) (o : Owner) → length ranks + weight o ≡ 0 → (ranks ≡ []) × (o ≡ outside)
nobody [] outside h = (refl, refl)
nobody [] waiting h = absurd (omega arith)
nobody [] inside h = absurd (omega arith)
nobody (r ∷ ranks) o h = absurd (omega arith)

-- In every reachable state is_locked answers false exactly if nobody holds or awaits the lock.
pub is_locked-Reachable :
    (l : Lock) → Reachable l → (is_locked l.word ≡ false) ↔ ((l.holders ≡ []) × (l.owner ≡ outside))
unfolding is_locked
is_locked-Reachable l r =
    let c = (Reachable-Exclusive l r).counted in
    (
      λ e. nobody l.holders l.owner (ground arith),
      λ (h, o). let n = ap (length {A = ℕ}) h in let w = ap weight o in ground arith,
    )
