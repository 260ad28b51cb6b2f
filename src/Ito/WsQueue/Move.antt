-- ===== src/Ito/WsQueue/Move.antt =====
-- The contents of a queue moved to other slots.
use itoyori.Prelude.{ℕ, ◌+◌, ◌-◌, ◌≤◌, ◌<◌, ◌≡◌, ◌∙◌, ◌⊎◌, none, some, arith}
use itoyori.Ito.WsQueue.{Queue, up, down, move_entries, shift, is_zero, move_range}
use itoyori.Ito.WsQueue.Slices.{length-move_range}
use itoyori.Ito.WsQueue.Ranges.{range-move_range}
use itoyori.Ito.WsQueue.Contents.{contents, IsValid}

module _ {A : Type 0} where
  pub move_entries-down :
      (q : Queue A) (k : ℕ)
      → IsValid q
      → 0 < k
      → k ≤ q.base
      → move_entries (down k) q
        ≡ some (record q {
          top = q.top - k;
          base = q.base - k;
          entries = move_range (q.top - q.base) q.base (q.base - k) q.entries;
        })
  unfolding move_entries shift is_zero
  move_entries-down q k v h f = ground (arith, v.ordered, v.bounded)

  pub move_entries-up :
      (q : Queue A) (k : ℕ)
      → 0 < k
      → q.top + k ≤ q.n_entries
      → move_entries (up k) q
        ≡ some (record q {
          top = q.top + k;
          base = q.base + k;
          entries = move_range (q.top - q.base) q.base (q.base + k) q.entries;
        })
  unfolding move_entries shift is_zero
  move_entries-up q k h f = ground arith

  pub move_entries-zero : (q : Queue A) → move_entries (down 0) q ≡ none
  unfolding move_entries shift is_zero
  move_entries-zero q = ground arith

  -- The queue with its contents moved to other slots.
  abbrev pub moved : Queue A → ℕ → ℕ → Queue A
  moved q b t = record q {
    top = t;
    base = b;
    entries = move_range (q.top - q.base) q.base b q.entries;
  }

  pub moved-IsValid :
      (q : Queue A) (b t : ℕ)
      → IsValid q
      → b + q.top ≡ t + q.base
      → t ≤ q.n_entries
      → (b ≤ q.base) ⊎ (q.top ≤ b)
      → IsValid (moved q b t) × (contents (moved q b t) ≡ contents q)
  moved-IsValid q b t v h f g = (
    record {
      ordered = omega (arith, v.ordered);
      bounded = f;
      slots = length-move_range (q.top - q.base) q.base b q.entries ∙ v.slots;
      start = v.start;
      known_empty = λ e k. omega (arith, v.known_empty e k);
    },
    range-move_range q.base q.top b t q.entries v.ordered (omega (arith, v.bounded, v.slots))
        (omega (arith, v.slots)) h g,
  )
