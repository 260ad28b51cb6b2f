-- ===== src/Ito/WsQueue/Push.antt =====
-- Pushes on the top of a queue.
use itoyori.Prelude.{
  ℕ, ◌+◌, ◌-◌, ◌/◌, ◌≤◌, ◌<◌, ◌≡◌, ◌≢◌, refl, sym, ap, ◌∙◌, inl, inr, Bool, true, false, [], ◌∷◌,
  ◌++◌, Option, none, some, arith, ==_iff, subst, ◌==◌, length-set, Bool-cases, Option-cases, ◌&&◌,
}
use mathlib.Core.Bool.{true≢false}
use itoyori.Ito.WsQueue.{Queue, down, move_entries, push, make_room, put_top}
use itoyori.Ito.WsQueue.Ranges.{range-set_last}
use itoyori.Ito.WsQueue.Contents.{contents, IsValid, Pushed}
use itoyori.Ito.WsQueue.Move.{move_entries-down, move_entries-zero, moved-IsValid}

module _ {A : Type 0} where
  put_top-IsValid :
      (x : A) (q : Queue A)
      → IsValid q
      → q.top < q.n_entries
      → IsValid (put_top x q) × (contents (put_top x q) ≡ contents q ++ (x ∷ []))
  unfolding put_top
  put_top-IsValid x q v h = (
    record {
      ordered = omega (arith, v.ordered);
      bounded = omega arith;
      slots = length-set q.entries q.top x ∙ v.slots;
      start = v.start;
      known_empty = λ e k. absurd (not_known q.local_empty q.enable_pass e k);
    },
    range-set_last q.base q.top q.entries x v.ordered (omega (arith, v.slots)),
  )
    where
      not_known : (l p : Bool) → p ≡ false → (l && p) ≢ true
      not_known true p e k = true≢false (sym k ∙ e)
      not_known false p e k = true≢false (sym k)

  -- What a push finds: a full queue, or a queue with the same contents and a slot above them.
  abbrev Room : Queue A → Option (Queue A) → Type 0
  Room q none = (q.top ≡ q.n_entries) × (q.base ≡ 0)
  Room q (some q') = IsValid q' × (q'.top < q'.n_entries) × (contents q' ≡ contents q)

  moved-Room :
      (q : Queue A)
      → IsValid q
      → q.top ≡ q.n_entries
      → 0 < q.base
      → Room q (move_entries (down ((q.base + 1) / 2)) q)
  moved-Room q v full h =
      let k = (q.base + 1) / 2 in
      let le : k ≤ q.base = omega arith in
      let pos : 0 < k = omega arith in
      let (v', same) =
        moved-IsValid q (q.base - k) (q.top - k) v (omega (arith, v.ordered)) (omega arith)
          (inl (omega arith)) in
      subst (Room q) (sym (move_entries-down q k v pos le)) (v', omega arith, same)

  make_room-full : (q : Queue A) → q.base ≡ 0 → move_entries (down ((q.base + 1) / 2)) q ≡ none
  make_room-full q h =
      let e : (q.base + 1) / 2 ≡ 0 = omega arith in
      ap (λ (k : ℕ). move_entries (down k) q) e ∙ move_entries-zero q

  make_room-Room : (q : Queue A) → IsValid q → Room q (make_room q)
  unfolding make_room
  make_room-Room q v = elim (Bool-cases (q.top == q.n_entries)) [
    | inr f ↦ rw f (v, ground (arith, v.bounded, ==_iff q.top q.n_entries), refl)
    | inl t ↦ rw t (
        let full = (==_iff q.top q.n_entries).0 t in
        elim (Bool-cases (q.base == 0)) [
          | inl z ↦
              let empty_below = (==_iff q.base 0).0 z in
              subst (Room q) (sym (make_room-full q empty_below)) (full, empty_below)
          | inr z ↦ moved-Room q v full (ground (arith, ==_iff q.base 0))
        ])
  ]

  push-none : (x : A) (q : Queue A) → make_room q ≡ none → push x q ≡ none
  unfolding push
  push-none x q e = rw (push, e) refl

  push-some :
      (x : A) (q : Queue A) (q' : Queue A) → make_room q ≡ some q' → push x q ≡ some (put_top x q')
  unfolding push
  push-some x q q' e = rw (push, e) refl

  -- A push on a valid queue leaves a valid queue that holds the entry above what it held; it
  -- throws only if the slots are full and the base is 0.
  pub push-Pushed : (x : A) (q : Queue A) → IsValid q → Pushed x q (push x q)
  push-Pushed x q v = elim (Option-cases (make_room q)) [
    | inl e ↦ subst (Pushed x q) (sym (push-none x q e)) (subst (Room q) e (make_room-Room q v))
    | inr (q', e) ↦
        let (v', lt, same) = subst (Room q) e (make_room-Room q v) in
        let (v2, f) = put_top-IsValid x q' v' lt in
        subst (Pushed x q) (sym (push-some x q q' e)) (v2, f ∙ ap (◌++ (x ∷ [])) same)
  ]
