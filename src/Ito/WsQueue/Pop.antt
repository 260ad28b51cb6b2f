-- ===== src/Ito/WsQueue/Pop.antt =====
-- Pops from the top of a queue.
use itoyori.Prelude.{
  ◌+◌, ◌-◌, ◌/◌, ◌≤◌, ◌<◌, ◌≡◌, refl, sym, ap, ◌∙◌, ◌⊎◌, inl, inr, Bool, true, false, ◌++◌, Option,
  none, some, arith, ==_iff, subst, ltb, not, ltb→lt, ◌==◌, get_elem?, Bool-cases, Option-cases,
  ◌&&◌,
}
use mathlib.Core.Option.{some-ne-none}
use mathlib.Core.Bool.{true≢false}
use itoyori.Ito.WsQueue.{
  Queue, up, move_entries, keep_room_below, pop_locked, pop, is_empty, take_top, take_checked,
  reset,
}
use itoyori.Ito.WsQueue.Ranges.{range-empty, range-last}
use itoyori.Ito.WsQueue.Contents.{
  contents, IsValid, entries_of, Popped, &&-both, not-true, nothing-Popped, is_empty-top,
}
use itoyori.Ito.WsQueue.Move.{move_entries-up, moved-IsValid}

module _ {A : Type 0} where
  -- The queue whose top is one lower, and the one whose base is one higher.
  lower_top-IsValid :
      (q : Queue A) → IsValid q → q.base < q.top → IsValid (record q { top = q.top - 1 })
  lower_top-IsValid q v h = record {
    ordered = omega arith;
    bounded = omega (arith, v.bounded);
    slots = v.slots;
    start = v.start;
    known_empty = λ e f. absurd (omega (arith, v.known_empty e f));
  }

  lower_top-Popped :
      (q : Queue A)
      → IsValid q
      → q.base < q.top
      → Popped q (get_elem? q.entries (q.top - 1), record q { top = q.top - 1 })
  lower_top-Popped q v h =
      let (x, e, f) = range-last q.base q.top q.entries h (omega (arith, v.bounded, v.slots)) in
      subst (λ (o : Option A). Popped q (o, record q { top = q.top - 1 })) (sym e)
        (lower_top-IsValid q v h, f, λ n. absurd (some-ne-none x n))

  -- What is moved up does not overlap its new place, or nothing is moved.
  abbrev pub MovesApart : Queue A → Type 0
  MovesApart q =
      (q.enable_pass ≡ false)
      ⊎ (q.n_entries / 10 ≤ q.base)
      ⊎ (q.n_entries - q.top ≤ q.n_entries / 10)
      ⊎ (q.top ≤ q.base + (q.n_entries - q.top + 1) / 2)

  -- The queue that the first part of a pop leaves.
  abbrev Kept : Queue A → Option (Queue A) → Type 0
  Kept q none = ⊥
  Kept q (some q') = IsValid q' × (contents q' ≡ contents q)

  move_up-Kept :
      (q : Queue A)
      → IsValid q
      → q.n_entries / 10 < q.n_entries - q.top
      → q.top ≤ q.base + (q.n_entries - q.top + 1) / 2
      → Kept q (move_entries (up ((q.n_entries - q.top + 1) / 2)) q)
  move_up-Kept q v h f =
      let k = (q.n_entries - q.top + 1) / 2 in
      subst (Kept q) (sym (move_entries-up q k (omega arith) (omega arith)))
        (moved-IsValid q (q.base + k) (q.top + k) v (omega arith) (omega arith) (inr f))

  apart :
      (q : Queue A)
      → q.enable_pass ≡ true
      → q.base < q.n_entries / 10
      → q.n_entries / 10 < q.n_entries - q.top
      → MovesApart q
      → q.top ≤ q.base + (q.n_entries - q.top + 1) / 2
  apart q e h f (inl g) = absurd (true≢false (sym e ∙ g))
  apart q e h f (inr g) = ground arith

  keep_room_below-Kept : (q : Queue A) → IsValid q → MovesApart q → Kept q (keep_room_below q)
  unfolding keep_room_below
  keep_room_below-Kept q v m =
      elim (Bool-cases (
        q.enable_pass
        && ltb q.base (q.n_entries / 10)
        && ltb (q.n_entries / 10) (q.n_entries - q.top))) [
          | inr f ↦ rw f (v, refl)
          | inl t ↦
              let near_end = ltb (q.n_entries / 10) (q.n_entries - q.top) in
              let (ef, g) = &&-both (q.enable_pass && ltb q.base (q.n_entries / 10)) near_end t in
              let (e, f) = &&-both q.enable_pass (ltb q.base (q.n_entries / 10)) ef in
              rw t (move_up-Kept q v (ltb→lt _ _ g) (apart q e (ltb→lt _ _ f) (ltb→lt _ _ g) m))
        ]

  reset-Popped :
      (q : Queue A) (o : Option A) → IsValid q → contents q ≡ entries_of o → Popped q (o, reset q)
  unfolding reset
  reset-Popped q o v h = (
    record {
      ordered = omega arith;
      bounded = v.start;
      slots = v.slots;
      start = v.start;
      known_empty = λ e f. refl;
    },
    h
        ∙ ap (◌++ (entries_of o))
            (sym (range-empty q.initial_pos q.initial_pos q.entries (omega arith))),
    λ e. h ∙ ap entries_of e,
  )

  -- A queue of one entry.
  one_left :
      (q : Queue A)
      → IsValid q
      → q.base + 1 ≡ q.top
      → contents q ≡ entries_of (get_elem? q.entries (q.top - 1))
  one_left q v h =
      contents_of (lower_top-Popped q v (omega arith))
      ∙ ap (◌++ (entries_of (get_elem? q.entries (q.top - 1))))
          (range-empty q.base (q.top - 1) q.entries (omega arith))
    where
      contents_of :
          {o : Option A} {q' : Queue A}
          → Popped q (o, q')
          → contents q ≡ contents q' ++ entries_of o
      contents_of (v, f, n) = f

  -- Under the lock, a pop of a valid queue takes the top entry, or answers none if the queue is
  -- empty, and leaves a valid queue.
  pub pop_locked-Popped : (q : Queue A) → IsValid q → Popped q (pop_locked q)
  unfolding pop_locked
  pop_locked-Popped q v = elim (Bool-cases (ltb (q.base + 1) q.top)) [
    | inl t ↦ rw t (lower_top-Popped q v (ground arith))
    | inr f ↦ rw f (elim (Bool-cases (q.base + 1 == q.top)) [
      | inl t ↦ rw t (reset-Popped q _ v (one_left q v ((==_iff (q.base + 1) q.top).0 t)))
      | inr g ↦ rw g (
          reset-Popped q none v (
            range-empty q.base q.top q.entries
              (ground (arith, v.ordered, ==_iff (q.base + 1) q.top))))
    ])
  ]

  take_top-Popped : (q : Queue A) → IsValid q → Popped q (take_top q)
  unfolding take_top
  take_top-Popped q v = elim (Bool-cases (ltb q.base q.top)) [
    | inl t ↦ rw t (lower_top-Popped q v (ltb→lt _ _ t))
    | inr f ↦ rw f (pop_locked-Popped q v)
  ]

  -- The result of a whole pop, which throws no exception.
  abbrev pub PoppedSome : Queue A → Option (Option A × Queue A) → Type 0
  PoppedSome q none = ⊥
  PoppedSome q (some r) = Popped q r

  after_moving :
      (q q' : Queue A) (r : Option A × Queue A)
      → contents q' ≡ contents q
      → Popped q' r
      → Popped q r
  after_moving q q' (o, q2) e (v, f, n) = (v, sym e ∙ f, λ z. sym e ∙ n z)

  take_checked-Popped : (e : Bool) (q : Queue A) → IsValid q → Popped q (take_checked e q)
  unfolding take_checked
  take_checked-Popped e q v = elim (Bool-cases (not q.enable_pass && q.local_empty)) [
    | inl t ↦ rw t (
        let (e, k) = &&-both (not q.enable_pass) q.local_empty t in
        nothing-Popped q v (omega (arith, v.known_empty (not-true q.enable_pass e) k)))
    | inr f ↦ rw f (elim (Bool-cases (not e && is_empty q)) [
      | inl t ↦ rw t (nothing-Popped q v (is_empty-top q (&&-both _ _ t).1))
      | inr g ↦ rw g (take_top-Popped q v)
    ])
  ]

  pop-some :
      (e : Bool) (q q' : Queue A) → keep_room_below q ≡ some q' → pop e q ≡ some (take_checked e q')
  unfolding pop
  pop-some e q q' h = rw (pop, h) refl

  -- A pop of a valid queue, on which the move of its first part is not made or does not overlap,
  -- throws no exception, leaves a valid queue and takes the top entry, and answers none only if
  -- the queue is empty.
  pub pop-PoppedSome :
      (ensure_empty : Bool) (q : Queue A)
      → IsValid q
      → MovesApart q
      → PoppedSome q (pop ensure_empty q)
  pop-PoppedSome ensure_empty q v m = elim (Option-cases (keep_room_below q)) [
    | inl h ↦ absurd (subst (Kept q) h (keep_room_below-Kept q v m))
    | inr (q', h) ↦
        let (v', same) = subst (Kept q) h (keep_room_below-Kept q v m) in
        subst (PoppedSome q) (sym (pop-some ensure_empty q q' h)) (
          after_moving q q' (take_checked ensure_empty q') same
            (take_checked-Popped ensure_empty q' v'))
  ]
