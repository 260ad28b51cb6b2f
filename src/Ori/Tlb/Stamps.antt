-- ===== src/Ori/Tlb/Stamps.antt =====
-- The stamps of a tlb: all below the counter, no two equal; the victim has the least.
use itoyori.Prelude.{
  ℕ, zero, suc, ◌+◌, ◌≤◌, ◌<◌, ◌≡◌, ◌≢◌, refl, inl, inr, Bool, List, [], ◌∷◌, Option, none, some,
  arith, set, get_elem?, Bool-cases, Option-cases,
}
use itoyori.Ori.Tlb.{TlbEntry, Tlb, fill, stamp, victim, add, touch, get}

module _ {K E : Type 0} where
  abbrev pub Below : ℕ → List (Option (TlbEntry K E)) → Type 0
  Below n [] = Unit {0}
  Below n (none ∷ es) = Below n es
  Below n (some t ∷ es) = (t.timestamp < n) × Below n es

  -- No entry has the stamp.
  abbrev pub Unused : ℕ → List (Option (TlbEntry K E)) → Type 0
  Unused n [] = Unit {0}
  Unused n (none ∷ es) = Unused n es
  Unused n (some t ∷ es) = (t.timestamp ≢ n) × Unused n es

  abbrev pub Distinct : List (Option (TlbEntry K E)) → Type 0
  Distinct [] = Unit {0}
  Distinct (none ∷ es) = Distinct es
  Distinct (some t ∷ es) = Unused t.timestamp es × Distinct es

  abbrev pub AllFrom : ℕ → List (Option (TlbEntry K E)) → Type 0
  AllFrom n [] = Unit {0}
  AllFrom n (e ∷ es) = (n ≤ stamp e) × AllFrom n es

  pub record IsStamped (t : Tlb K E) : Type 0 where
    pub below : Below t.timestamp t.entries
    pub distinct : Distinct t.entries

  Below-suc : (n : ℕ) (es : List (Option (TlbEntry K E))) → Below n es → Below (n + 1) es
  Below-suc n [] b = tt
  Below-suc n (none ∷ es) b = Below-suc n es b
  Below-suc n (some t ∷ es) b = (omega arith, Below-suc n es b.1)

  Below-Unused : (n : ℕ) (es : List (Option (TlbEntry K E))) → Below n es → Unused n es
  Below-Unused n [] b = tt
  Below-Unused n (none ∷ es) b = Below-Unused n es b
  Below-Unused n (some t ∷ es) b = (omega arith, Below-Unused n es b.1)

  -- What an operation that stamps one entry with `n` leaves.
  abbrev Stamped : ℕ → List (Option (TlbEntry K E)) → Type 0
  Stamped n es = Below (n + 1) es × Distinct es

  module _ (te : TlbEntry K E) (n : ℕ) (now : te.timestamp ≡ n) where
    set-Unused :
        (m i : ℕ) (es : List (Option (TlbEntry K E)))
        → m ≢ n
        → Unused m es
        → Unused m (set es i (some te))
    set-Unused m i [] h u = tt
    set-Unused m zero (none ∷ es) h u = (omega arith, u)
    set-Unused m zero (some t ∷ es) h u = (omega arith, u.1)
    set-Unused m (suc i) (none ∷ es) h u = set-Unused m i es h u
    set-Unused m (suc i) (some t ∷ es) h u = (u.0, set-Unused m i es h u.1)

    set-Stamped :
        (i : ℕ) (es : List (Option (TlbEntry K E)))
        → Below n es
        → Distinct es
        → Stamped n (set es i (some te))
    set-Stamped i [] b d = (tt, tt)
    set-Stamped zero (none ∷ es) b d =
        ((omega arith, Below-suc n es b), (rw now (Below-Unused n es b), d))
    set-Stamped zero (some t ∷ es) b d =
        ((omega arith, Below-suc n es b.1), (rw now (Below-Unused n es b.1), d.1))
    set-Stamped (suc i) (none ∷ es) b d = set-Stamped i es b d
    set-Stamped (suc i) (some t ∷ es) b d =
        let ih = set-Stamped i es b.1 d.1 in
        ((omega arith, ih.0), (set-Unused t.timestamp i es (omega arith) d.0, ih.1))

  -- `fill` and `touch` write one slot.
  pub fill-set :
      (te : TlbEntry K E) (es es' : List (Option (TlbEntry K E)))
      → fill te es ≡ some es'
      → (i : ℕ) × (get_elem? es i ≡ some none) × (es' ≡ set es i (some te))
  unfolding fill
  fill-set te [] es' h = cc
  fill-set te (none ∷ es) es' h = (0, refl, ground arith)
  fill-set te (some t ∷ es) es' h = elim (Option-cases (fill te es)) [
    | inl e ↦ cc e
    | inr (r, e) ↦ let ih = fill-set te es r e in (suc ih.0, ih.1, ground (arith, ih.2, e))
  ]

  pub touch-set :
      (fn : K → Bool) (now : ℕ) (es es' : List (Option (TlbEntry K E))) (e : E)
      → touch fn now es ≡ some (e, es')
      → (i : ℕ) × (t : TlbEntry K E) × (es' ≡ set es i (some (record t { timestamp = now })))
  unfolding touch
  touch-set fn now [] es' e h = cc
  touch-set fn now (none ∷ es) es' e h = elim (Option-cases (touch fn now es)) [
    | inl q ↦ cc q
    | inr ((e', r), q) ↦
        let ih = touch-set fn now es r e' q in (suc ih.0, ih.1, ground (arith, ih.2, q))
  ]
  touch-set fn now (some t ∷ es) es' e h = elim (Bool-cases (fn t.key)) [
    | inl k ↦ (0, t, ground (arith, k))
    | inr k ↦ elim (Option-cases (touch fn now es)) [
      | inl q ↦ absurd (ground (arith, k, q, h))
      | inr ((e', r), q) ↦
          let ih = touch-set fn now es r e' q in (suc ih.0, ih.1, ground (arith, ih.2, q, k))
    ]
  ]

  -- Inserting an entry keeps the stamps distinct and below the counter.
  pub add-IsStamped : (k : K) (e : E) (t : Tlb K E) → IsStamped t → IsStamped (add k e t)
  unfolding add
  add-IsStamped k e t v = elim (Option-cases (fill te t.entries)) [
    | inl q ↦
        rw (q, add)
          (let s =
              set-Stamped te t.timestamp refl (victim t.entries) t.entries v.below v.distinct in
            record { below = s.0; distinct = s.1 })
    | inr (es, q) ↦
        let f = fill-set te t.entries es q in
        rw (q, add)
          (rw f.2 (
            let s = set-Stamped te t.timestamp refl f.0 t.entries v.below v.distinct in
            record { below = s.0; distinct = s.1 }))
  ]
    where
      te : TlbEntry K E
      te = record { key = k; entry = e; timestamp = t.timestamp }

  -- So does a lookup, whether it hits or misses.
  pub get-IsStamped : (fn : K → Bool) (t : Tlb K E) → IsStamped t → IsStamped (get fn t).1
  unfolding get
  get-IsStamped fn t v = elim (Option-cases (touch fn t.timestamp t.entries)) [
    | inl q ↦ rw (q, get) v
    | inr ((e, es), q) ↦
        let f = touch-set fn t.timestamp t.entries es e q in
        rw (q, get)
          (rw f.2 (
            let s =
              set-Stamped (record f.1 { timestamp = t.timestamp }) t.timestamp refl f.0 t.entries
                v.below v.distinct in
            record { below = s.0; distinct = s.1 }))
  ]
