-- ===== src/Ori/Tlb/Lookup.antt =====
-- What a lookup finds after an insertion, and which entry an insertion into a full tlb evicts.
use mathlib.Core.Option
use itoyori.Prelude.{
  ℕ, zero, suc, ◌+◌, ◌≤◌, ◌<◌, ◌≡◌, ◌≢◌, refl, sym, ap, ◌⊎◌, inl, inr, Bool, true, false, List, [],
  ◌∷◌, Option, none, some, arith, ltb, set, get_elem?, Bool-cases, Option-cases, length,
  if◌then◌else◌, ◌∙◌,
}
use itoyori.Ori.Tlb.{TlbEntry, Tlb, fill, stamp, min_element, victim, add, touch, get}
use itoyori.Ori.Tlb.Stamps.{Below, AllFrom, IsStamped, fill-set}

module _ {K E : Type 0} where
  -- The first entry that passes the test.
  pub first_match : (K → Bool) → List (Option (TlbEntry K E)) → Option E
  first_match fn [] = none
  first_match fn (none ∷ es) = first_match fn es
  first_match fn (some t ∷ es) = if fn t.key then some t.entry else first_match fn es

  -- Every slot is taken.
  abbrev pub IsFull : List (Option (TlbEntry K E)) → Type 0
  IsFull [] = Unit {0}
  IsFull (none ∷ es) = ⊥
  IsFull (some t ∷ es) = IsFull es

  get-first_match :
      (fn : K → Bool) (now : ℕ) (es : List (Option (TlbEntry K E)))
      → Option.map (λ r. r.0) (touch fn now es) ≡ first_match fn es
  unfolding touch first_match
  get-first_match fn now [] = refl
  get-first_match fn now (none ∷ es) = ground (arith, get-first_match fn now es)
  get-first_match fn now (some t ∷ es) = ground (arith, get-first_match fn now es)

  first_match-set_self :
      (fn : K → Bool) (te : TlbEntry K E) (i : ℕ) (es : List (Option (TlbEntry K E)))
      → i < length es
      → first_match fn es ≡ none
      → fn te.key ≡ true
      → first_match fn (set es i (some te)) ≡ some te.entry
  unfolding first_match
  first_match-set_self fn te i [] h m k = absurd (omega arith)
  first_match-set_self fn te zero (none ∷ es) h m k = rw k
  first_match-set_self fn te zero (some t ∷ es) h m k = rw k
  first_match-set_self fn te (suc i) (none ∷ es) h m k =
      first_match-set_self fn te i es (omega arith) m k
  first_match-set_self fn te (suc i) (some t ∷ es) h m k =
      ground (arith, first_match-set_self fn te i es)

  -- A slot with the least stamp, from `i` on, or the best one before.
  abbrev Least : ℕ → ℕ → ℕ → List (Option (TlbEntry K E)) → ℕ → Type 0
  Least best least i es r =
      ((r ≡ best) × AllFrom least es)
      ⊎ ((j : ℕ) × (e : Option (TlbEntry K E)) × (r ≡ i + j)
          × (get_elem? es j ≡ some e)
          × (stamp e ≤ least)
          × AllFrom (stamp e) es)

  min_element-Least :
      (best least i : ℕ) (es : List (Option (TlbEntry K E)))
      → Least best least i es (min_element best least i es)
  unfolding min_element
  min_element-Least best least i [] = inl (refl, tt)
  min_element-Least best least i (e ∷ es) = elim (Bool-cases (ltb (stamp e) least)) [
    | inl better ↦ rw better (elim (min_element-Least i (stamp e) (i + 1) es) [
      | inl h ↦ inr (0, e, omega (arith, h.0), refl, ground arith, (omega arith, h.1))
      | inr h ↦ inr (suc h.0, h.1, omega (arith, h.2), h.3, ground (arith, h.4), (h.4, h.5))
    ])
    | inr worse ↦ rw worse (elim (min_element-Least best least (i + 1) es) [
      | inl h ↦ inl (h.0, (ground arith, h.1))
      | inr h ↦ inr (suc h.0, h.1, omega (arith, h.2), h.3, h.4, (ground (arith, h.4), h.5))
    ])
  ]

  -- The slot that a full tlb gives up exists, and no stamp is less than its.
  pub victim-oldest :
      (es : List (Option (TlbEntry K E)))
      → es ≢ []
      → (e : Option (TlbEntry K E)) × (get_elem? es (victim es) ≡ some e) × AllFrom (stamp e) es
  unfolding victim
  victim-oldest [] h = absurd (h refl)
  victim-oldest (e ∷ es) h = elim (min_element-Least 0 (stamp e) 1 es) [
    | inl q ↦ (e, rw q.0, (omega arith, q.1))
    | inr q ↦
        let at : victim (e ∷ es) ≡ suc q.0 = omega (arith, q.2) in (q.1, rw at q.3, (q.4, q.5))
  ]

  get-eq : (fn : K → Bool) (t : Tlb K E) → (get fn t).0 ≡ first_match fn t.entries
  unfolding get
  get-eq fn t = elim (Option-cases (touch fn t.timestamp t.entries)) [
    | inl q ↦ rw (q, get) (rw (← get-first_match fn t.timestamp t.entries) (rw q))
    | inr ((e, es), q) ↦ rw (q, get) (rw (← get-first_match fn t.timestamp t.entries) (rw q))
  ]

  get_elem?-lt :
      (es : List (Option (TlbEntry K E))) (i : ℕ) (e : Option (TlbEntry K E))
      → get_elem? es i ≡ some e
      → i < length es
  get_elem?-lt [] i e h = cc
  get_elem?-lt (x ∷ es) zero e h = omega arith
  get_elem?-lt (x ∷ es) (suc i) e h = omega (arith, get_elem?-lt es i e h)

  fill-IsFull :
      (te : TlbEntry K E) (es : List (Option (TlbEntry K E))) → IsFull es → fill te es ≡ none
  unfolding fill
  fill-IsFull te [] f = refl
  fill-IsFull te (none ∷ es) f = absurd f
  fill-IsFull te (some t ∷ es) f = rw (fill-IsFull te es f)

  -- In a tlb with at least one slot, a key that a lookup does not find is found with its entry
  -- once it is inserted, whether a slot was empty or not.
  pub get-add :
      (fn : K → Bool) (k : K) (e : E) (t : Tlb K E)
      → t.entries ≢ []
      → (get fn t).0 ≡ none
      → fn k ≡ true
      → (get fn (add k e t)).0 ≡ some e
  unfolding add
  get-add fn k e t ne miss hit = get-eq fn (add k e t) ∙ found
    where
      te : TlbEntry K E
      te = record { key = k; entry = e; timestamp = t.timestamp }

      absent : first_match fn t.entries ≡ none
      absent = sym (get-eq fn t) ∙ miss

      found : first_match fn (add k e t).entries ≡ some e
      found = elim (Option-cases (fill te t.entries)) [
        | inl q ↦
            rw (q, add)
              (let v = victim-oldest t.entries ne in
                first_match-set_self fn te (victim t.entries) t.entries
                  (get_elem?-lt t.entries _ v.0 v.1) absent hit)
        | inr (es, q) ↦
            rw (q, add)
              (let f = fill-set te t.entries es q in
                rw f.2 (
                  first_match-set_self fn te f.0 t.entries (get_elem?-lt t.entries f.0 none f.1)
                    absent hit))
      ]

  -- Inserting into a full tlb replaces one slot by the new entry, and no slot has a stamp less
  -- than that one had.
  pub add_evicts_oldest :
      (k : K) (e : E) (t : Tlb K E)
      → t.entries ≢ []
      → IsFull t.entries
      → (i : ℕ) × (v : Option (TlbEntry K E)) × (get_elem? t.entries i ≡ some v)
        × AllFrom (stamp v) t.entries
        × ((add k e t).entries
            ≡ set t.entries i (some (record { key = k; entry = e; timestamp = t.timestamp })))
  unfolding add
  add_evicts_oldest k e t ne full =
      let v = victim-oldest t.entries ne in
      (
        victim t.entries,
        v.0,
        v.1,
        v.2,
        rw
            (
              fill-IsFull (record { key = k; entry = e; timestamp = t.timestamp }) t.entries full,
              add,
            )
            refl,
      )

  -- The two ways in which a lookup succeeds at a taken slot.
  touch-cases :
      (fn : K → Bool) (now : ℕ) (t : TlbEntry K E) (es es' : List (Option (TlbEntry K E))) (e : E)
      → touch fn now (some t ∷ es) ≡ some (e, es')
      → ((fn t.key ≡ true) × (t.entry ≡ e) × (es' ≡ some (record t { timestamp = now }) ∷ es))
        ⊎ ((fn t.key ≡ false)
            × (r : List (Option (TlbEntry K E))) × (touch fn now es ≡ some (e, r))
            × (es' ≡ some t ∷ r))
  unfolding touch
  touch-cases fn now t es es' e h = elim (Bool-cases (fn t.key)) [
    | inl k ↦ inl (k, ground (arith, k, h), ground (arith, k, h))
    | inr k ↦ elim (Option-cases (touch fn now es)) [
      | inl q ↦ absurd (ground (arith, k, q, h))
      | inr ((e', r), q) ↦ inr (k, r, ground (arith, k, q, h), ground (arith, k, q, h))
    ]
  ]

  touch-IsFull :
      (fn : K → Bool) (now : ℕ) (es es' : List (Option (TlbEntry K E))) (e : E)
      → touch fn now es ≡ some (e, es')
      → IsFull es
      → IsFull es' × (length es' ≡ length es)
  unfolding touch
  touch-IsFull fn now [] es' e h f = cc
  touch-IsFull fn now (none ∷ es) es' e h f = absurd f
  touch-IsFull fn now (some t ∷ es) es' e h f = elim (touch-cases fn now t es es' e h) [
    | inl q ↦ rw q.2 (f, refl)
    | inr q ↦ let ih = touch-IsFull fn now es q.1 e q.2 f in rw q.3 (ih.0, omega (arith, ih.1))
  ]

  -- In a full tlb of two entries or more, not every stamp is that of a lookup.
  touch-older :
      (fn : K → Bool) (now s : ℕ) (es es' : List (Option (TlbEntry K E))) (e : E)
      → touch fn now es ≡ some (e, es')
      → IsFull es
      → 1 < length es
      → Below now es
      → AllFrom s es'
      → s < now
  unfolding touch
  touch-older fn now s [] es' e h f l b a = cc
  touch-older fn now s (none ∷ es) es' e h f l b a = absurd f
  touch-older fn now s (some t ∷ []) es' e h f l b a = absurd (omega arith)
  touch-older fn now s (some t ∷ none ∷ es) es' e h f l b a = absurd f
  touch-older fn now s (some t ∷ some u ∷ es) es' e h f l b a =
      elim (touch-cases fn now t (some u ∷ es) es' e h) [
        | inl q ↦
            let a' : AllFrom s (some (record t { timestamp = now }) ∷ some u ∷ es) = rw q.2 at a in
            omega arith
        | inr q ↦ let a' : AllFrom s (some t ∷ q.1) = rw q.3 at a in omega arith
      ]

  touch-again :
      (fn : K → Bool) (now : ℕ) (es es' : List (Option (TlbEntry K E))) (e : E)
      → touch fn now es ≡ some (e, es')
      → IsFull es
      → first_match fn es' ≡ some e
  unfolding touch first_match
  touch-again fn now [] es' e h f = cc
  touch-again fn now (none ∷ es) es' e h f = absurd f
  touch-again fn now (some t ∷ es) es' e h f = elim (touch-cases fn now t es es' e h) [
    | inl q ↦ rw (q.2, first_match) (rw q.0 (ap some q.1))
    | inr q ↦ rw (q.3, first_match) (rw q.0 (touch-again fn now es q.1 e q.2 f))
  ]

  -- A slot of an older stamp can be overwritten without hiding what the lookup found.
  touch-kept :
      (fn : K → Bool) (now : ℕ) (es es' : List (Option (TlbEntry K E))) (e : E) (te : TlbEntry K E)
      (i : ℕ) (v : Option (TlbEntry K E))
      → touch fn now es ≡ some (e, es')
      → IsFull es
      → fn te.key ≡ false
      → get_elem? es' i ≡ some v
      → stamp v < now
      → first_match fn (set es' i (some te)) ≡ some e
  unfolding touch first_match
  touch-kept fn now [] es' e te i v h f k g s = cc
  touch-kept fn now (none ∷ es) es' e te i v h f k g s = absurd f
  touch-kept fn now (some t ∷ es) es' e te i v h f k g s = elim (touch-cases fn now t es es' e h) [
    | inl q ↦ rw q.2 (hit i q (rw q.2 at g))
    | inr q ↦ rw q.3 (
        pass i q.1 q.0 (touch-again fn now es q.1 e q.2 f) (rw q.3 at g)
          (λ j g'. touch-kept fn now es q.1 e te j v q.2 f k g' s))
  ]
    where
      hit :
          (i : ℕ)
          → (fn t.key ≡ true) × (t.entry ≡ e) × (es' ≡ some (record t { timestamp = now }) ∷ es)
          → get_elem? (some (record t { timestamp = now }) ∷ es) i ≡ some v
          → first_match fn (set (some (record t { timestamp = now }) ∷ es) i (some te)) ≡ some e
      hit zero q g =
          let p : v ≡ some (record t { timestamp = now }) = ground arith in
          absurd (omega (arith, ap stamp p))
      hit (suc i) q g = rw q.0 (ap some q.1)

      pass :
          (i : ℕ) (r : List (Option (TlbEntry K E)))
          → fn t.key ≡ false
          → first_match fn r ≡ some e
          → get_elem? (some t ∷ r) i ≡ some v
          → ((j : ℕ) → get_elem? r j ≡ some v → first_match fn (set r j (some te)) ≡ some e)
          → first_match fn (set (some t ∷ r) i (some te)) ≡ some e
      pass zero r miss again g ih = rw k again
      pass (suc i) r miss again g ih = rw miss (ih i g)

  get-hit :
      (fn : K → Bool) (t : Tlb K E) (e : E)
      → (get fn t).0 ≡ some e
      → (es : List (Option (TlbEntry K E))) × (touch fn t.timestamp t.entries ≡ some (e, es))
        × ((get fn t).1 ≡ record { entries = es; timestamp = t.timestamp + 1 })
  unfolding get
  get-hit fn t e hit = elim (Option-cases (touch fn t.timestamp t.entries)) [
    | inl q ↦ absurd (ground (arith, hit, q))
    | inr ((e1, es), q) ↦ (es, ground (arith, hit, q), ground (arith, q))
  ]

  -- In a full tlb of at least two slots whose stamps are distinct and below the counter, an entry
  -- that a lookup has just found is found again after the insertion of a key that the lookup does
  -- not match.
  pub get-add-get :
      (fn : K → Bool) (k : K) (e e' : E) (t : Tlb K E)
      → IsFull t.entries
      → 1 < length t.entries
      → IsStamped t
      → (get fn t).0 ≡ some e
      → fn k ≡ false
      → (get fn (add k e' (get fn t).1)).0 ≡ some e
  get-add-get fn k e e' t f l v hit other =
      let h = get-hit fn t e hit in rw h.2 (get-eq fn _ ∙ kept h.0 h.1)
    where
      kept :
          (es : List (Option (TlbEntry K E)))
          → touch fn t.timestamp t.entries ≡ some (e, es)
          → first_match fn (add k e' (record { entries = es; timestamp = t.timestamp + 1 })).entries
            ≡ some e
      kept es q =
          let full = touch-IsFull fn t.timestamp t.entries es e q f in
          let o =
            add_evicts_oldest k e' (record { entries = es; timestamp = t.timestamp + 1 })
              (λ p. absurd (omega (arith, ap length p, full.1))) full.0 in
          rw o.4 (
            touch-kept fn t.timestamp t.entries es e _ o.0 o.1 q f other o.2
              (touch-older fn t.timestamp (stamp o.1) t.entries es e q f l v.below o.3))
