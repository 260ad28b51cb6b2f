-- ===== src/Ito/WsQueue/Steal.antt =====
-- Thefts from the base of a queue, and passes to it.
use itoyori.Prelude.{
  ℕ, ◌+◌, ◌-◌, ◌<◌, ◌≡◌, refl, sym, ap, ◌∙◌, inl, inr, true, false, Option, none, arith, ==_iff,
  subst, ltb, lt→ltb, ltb→lt, ◌==◌, get_elem?, length-set, Bool-cases,
}
use mathlib.Core.Option.{some-ne-none}
use mathlib.Core.Bool.{true≢false}
use itoyori.Ito.WsQueue.{Queue, steal, abort_steal, trypass}
use itoyori.Ito.WsQueue.Ranges.{range-empty, range-first, range-set_first}
use itoyori.Ito.WsQueue.Contents.{IsValid, Stolen, Passed}

module _ {A : Type 0} where
  raise_base-IsValid :
      (q : Queue A) → IsValid q → q.base < q.top → IsValid (record q { base = q.base + 1 })
  raise_base-IsValid q v h = record {
    ordered = omega arith;
    bounded = v.bounded;
    slots = v.slots;
    start = v.start;
    known_empty = λ e f. absurd (omega (arith, v.known_empty e f));
  }

  raise_base-Stolen :
      (q : Queue A)
      → IsValid q
      → q.base < q.top
      → Stolen q (get_elem? q.entries q.base, record q { base = q.base + 1 })
  raise_base-Stolen q v h =
      let (x, e, f) = range-first q.base q.top q.entries h (omega (arith, v.bounded, v.slots)) in
      subst (λ (o : Option A). Stolen q (o, record q { base = q.base + 1 })) (sym e)
        (raise_base-IsValid q v h, f, λ n. absurd (some-ne-none x n))

  steal-some :
      (q : Queue A)
      → q.base < q.top
      → steal q ≡ (get_elem? q.entries q.base, record q { base = q.base + 1 })
  unfolding steal
  steal-some q h = rw (lt→ltb q.base q.top h) refl

  steal-none : (q : Queue A) → ltb q.base q.top ≡ false → steal q ≡ (none, q)
  unfolding steal
  steal-none q h =
      let e : q.base + 1 - 1 ≡ q.base = omega arith in
      let at_base : ℕ → Option A × Queue A = λ b. (none, record q { base = b }) in
      rw h (ap at_base e)

  -- A theft from a valid queue leaves a valid queue and takes the entry at the base; it answers
  -- none only if the queue is empty.
  pub steal-Stolen : (q : Queue A) → IsValid q → Stolen q (steal q)
  steal-Stolen q v = elim (Bool-cases (ltb q.base (q.top))) [
    | inl t ↦
        subst (Stolen q) (sym (steal-some q (ltb→lt _ _ t))) (raise_base-Stolen q v (ltb→lt _ _ t))
    | inr f ↦
        subst (Stolen q) (sym (steal-none q f))
          (v, refl, λ n. range-empty q.base q.top q.entries (ground arith))
  ]

  -- Aborting a theft from a queue that is not empty restores the queue.
  pub abort_steal-steal : (q : Queue A) → q.base < q.top → abort_steal (steal q).1 ≡ q
  unfolding abort_steal
  abort_steal-steal q h =
      let e : q.base + 1 - 1 ≡ q.base = omega arith in
      ap (λ (r : Option A × Queue A). abort_steal r.1) (steal-some q h)
      ∙ ap (λ (b : ℕ). record q { base = b }) e

  -- trypass on a valid queue that allows it puts the entry below what the queue holds and leaves
  -- a valid queue, or fails at base 0 and changes nothing.
  pub trypass-Passed :
      (x : A) (q : Queue A) → q.enable_pass ≡ true → IsValid q → Passed x q (trypass x q)
  unfolding trypass
  trypass-Passed x q p v = elim (Bool-cases (q.base == 0)) [
    | inl t ↦ rw t (ground (arith, ==_iff q.base 0), refl)
    | inr f ↦
        let h : 0 < q.base = ground (arith, ==_iff q.base 0) in
        rw f (
          h,
          record {
            ordered = omega (arith, v.ordered);
            bounded = v.bounded;
            slots = length-set q.entries (q.base - 1) x ∙ v.slots;
            start = v.start;
            known_empty = λ e f. absurd (true≢false (sym p ∙ e));
          },
          range-set_first q.base q.top q.entries x h v.ordered (omega (arith, v.bounded, v.slots)),
        )
  ]
