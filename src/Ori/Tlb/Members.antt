-- ===== src/Ori/Tlb/Members.antt =====
-- include/ityr/ori/tlb.hpp: what holds of all the entries of a tlb.
use mathlib.Core.Option
use mathlib.Core.Option.{some-injective, none-ne-some}
use itoyori.Prelude.{
  ℕ, zero, suc, ◌≡◌, subst, inl, inr, Bool, true, List, [], ◌∷◌, Option, none, some, set,
  Bool-cases, Option-cases,
}
use itoyori.Ori.Tlb.{TlbEntry, Tlb, fill, victim, add, touch, get, clear, clear_slots, empty}

module _ {K E : Type 0} where
  -- Each entry has the property with its key.
  unfoldable pub Every : (K → E → Type 0) → List (Option (TlbEntry K E)) → Type 0
  Every P [] = Unit {0}
  Every P (none ∷ es) = Every P es
  Every P (some t ∷ es) = P t.key t.entry × Every P es

  pub Every-map :
      (P Q : K → E → Type 0) (es : List (Option (TlbEntry K E)))
      → ((k : K) (e : E) → P k e → Q k e)
      → Every P es
      → Every Q es
  unfolding Every
  Every-map P Q [] f h = tt
  Every-map P Q (none ∷ es) f h = Every-map P Q es f h
  Every-map P Q (some t ∷ es) f h = (f t.key t.entry h.0, Every-map P Q es f h.1)

  module _ (P : K → E → Type 0) where
    set-Every :
        (es : List (Option (TlbEntry K E))) (i : ℕ) (t : TlbEntry K E)
        → P t.key t.entry
        → Every P es
        → Every P (set es i (some t))
    unfolding Every
    set-Every [] i t p h = tt
    set-Every (none ∷ es) zero t p h = (p, h)
    set-Every (some u ∷ es) zero t p h = (p, h.1)
    set-Every (none ∷ es) (suc i) t p h = set-Every es i t p h
    set-Every (some u ∷ es) (suc i) t p h = (h.0, set-Every es i t p h.1)

    EveryOf : Option (List (Option (TlbEntry K E))) → Type 0
    EveryOf none = Unit {0}
    EveryOf (some es) = Every P es

    behind_free :
        (o : Option (List (Option (TlbEntry K E)))) (u : TlbEntry K E)
        → P u.key u.entry
        → EveryOf o
        → EveryOf (Option.map (λ rest. some u ∷ rest) o)
    unfolding EveryOf Every
    behind_free none u p h = tt
    behind_free (some es) u p h = (p, h)

    fill-Every :
        (t : TlbEntry K E) (es : List (Option (TlbEntry K E)))
        → P t.key t.entry
        → Every P es
        → EveryOf (fill t es)
    unfolding fill Every EveryOf
    fill-Every t [] p h = tt
    fill-Every t (none ∷ es) p h = (p, h)
    fill-Every t (some u ∷ es) p h = behind_free (fill t es) u h.0 (fill-Every t es p h.1)

    pub add-Every :
        (k : K) (e : E) (t : Tlb K E) → P k e → Every P t.entries → Every P (add k e t).entries
    unfolding add EveryOf
    add-Every k e t p h =
        let te : TlbEntry K E = record { key = k; entry = e; timestamp = t.timestamp } in
        let f = fill-Every te t.entries p h in
        elim (Option-cases (fill te t.entries)) [
          | inl q ↦ rw (q, add) (set-Every t.entries (victim t.entries) te p h)
          | inr (es, q) ↦ rw (q, add) (subst EveryOf q f)
        ]

    clear_slots-Every : (es : List (Option (TlbEntry K E))) → Every P (clear_slots es)
    unfolding clear_slots Every
    clear_slots-Every [] = tt
    clear_slots-Every (e ∷ es) = clear_slots-Every es

    pub clear-Every : (t : Tlb K E) → Every P (clear t).entries
    unfolding clear
    clear-Every t = clear_slots-Every t.entries

    pub empty-Every : (n : ℕ) → Every P (empty n).entries
    unfolding Every
    empty-Every zero = tt
    empty-Every (suc n) = empty-Every n

    -- What a lookup found passes the test.
    pub Looked : (K → Bool) → Option (E × List (Option (TlbEntry K E))) → Type 0
    Looked fn none = Unit {0}
    Looked fn (some (e, es)) = ((k : K) × (fn k ≡ true) × P k e) × Every P es

    behind_none :
        (fn : K → Bool) (o : Option (E × List (Option (TlbEntry K E))))
        → Looked fn o
        → Looked fn (Option.map (λ r. (r.0, none ∷ r.1)) o)
    unfolding Looked Every
    behind_none fn none h = tt
    behind_none fn (some (e, es)) h = h

    behind_some :
        (fn : K → Bool) (t : TlbEntry K E) (o : Option (E × List (Option (TlbEntry K E))))
        → P t.key t.entry
        → Looked fn o
        → Looked fn (Option.map (λ r. (r.0, some t ∷ r.1)) o)
    unfolding Looked Every
    behind_some fn t none p h = tt
    behind_some fn t (some (e, es)) p h = (h.0, (p, h.1))

    touch-Looked :
        (fn : K → Bool) (now : ℕ) (es : List (Option (TlbEntry K E)))
        → Every P es
        → Looked fn (touch fn now es)
    unfolding touch Every Looked
    touch-Looked fn now [] h = tt
    touch-Looked fn now (none ∷ es) h = behind_none fn (touch fn now es) (touch-Looked fn now es h)
    touch-Looked fn now (some t ∷ es) h = elim (Bool-cases (fn t.key)) [
      | inl e ↦ rw e ((t.key, e, h.0), (h.0, h.1))
      | inr e ↦ rw e (behind_some fn t (touch fn now es) h.0 (touch-Looked fn now es h.1))
    ]

    -- The result of `get` and the tlb after it.
    abbrev pub Got : (K → Bool) → Option E × Tlb K E → Type 0
    Got fn (none, t) = Every P t.entries
    Got fn (some e, t) = ((k : K) × (fn k ≡ true) × P k e) × Every P t.entries

    pub get-Got : (fn : K → Bool) (t : Tlb K E) → Every P t.entries → Got fn (get fn t)
    unfolding get Looked
    get-Got fn t h =
        let l = touch-Looked fn t.timestamp t.entries h in
        elim (Option-cases (touch fn t.timestamp t.entries)) [
          | inl q ↦ rw (q, get) h
          | inr ((e, es), q) ↦ rw (q, get) (subst (Looked fn) q l)
        ]
