-- ===== src/Ori/Tlb.antt =====
-- include/ityr/ori/tlb.hpp: a small array of recently used entries, stamped with a counter. The
-- counter is an int that grows by one at each hit or insertion until `clear`; the model is that of
-- a counter below INT_MAX, beyond which the source's increment is undefined.
pub mod Stamps
pub mod Lookup
pub mod Members
mod Tests
use mathlib.Core.Option
use itoyori.Prelude.{
  ℕ, zero, suc, ◌+◌, Bool, true, false, List, [], ◌∷◌, Option, none, some, ltb, if◌then◌else◌, set,
  replicate,
}

module _ (K E : Type 0) where
  -- `tlb_entry`
  pub record TlbEntry : Type 0 where
    pub key : K
    pub entry : E
    pub timestamp : ℕ

  pub record Tlb : Type 0 where
    pub entries : List (Option TlbEntry)
    pub timestamp : ℕ

module _ {K E : Type 0} where
  -- A tlb of `n` empty slots.
  abbrev pub empty : ℕ → Tlb K E
  empty n = record { entries = replicate n none; timestamp = 0 }

  -- The first loop of `add`: the first empty slot takes the entry; `none` if there is none.
  unfoldable pub fill :
      TlbEntry K E → List (Option (TlbEntry K E)) → Option (List (Option (TlbEntry K E)))
  fill te [] = none
  fill te (none ∷ es) = some (some te ∷ es)
  fill te (some t ∷ es) = Option.map (◌∷◌ (some t)) (fill te es)

  -- The timestamp of a slot; an empty one is never compared.
  abbrev pub stamp : Option (TlbEntry K E) → ℕ
  stamp none = 0
  stamp (some t) = t.timestamp

  -- std::min_element by timestamp, behind a best slot `best` of stamp `least`; `i` is the next slot.
  unfoldable pub min_element : ℕ → ℕ → ℕ → List (Option (TlbEntry K E)) → ℕ
  min_element best least i [] = best
  min_element best least i (e ∷ es) =
      let better = ltb (stamp e) least in
      min_element (if better then i else best) (if better then stamp e else least) (i + 1) es

  unfoldable pub victim : List (Option (TlbEntry K E)) → ℕ
  unfolding min_element
  victim [] = 0
  victim (e ∷ es) = min_element 0 (stamp e) 1 es

  unfoldable pub add : K → E → Tlb K E → Tlb K E
  unfolding fill victim
  add k e t =
      let te : TlbEntry K E = record { key = k; entry = e; timestamp = t.timestamp } in
      elim (fill te t.entries) [
        | some es ↦ record { entries = es; timestamp = t.timestamp + 1 }
        | none ↦ record {
          entries = set t.entries (victim t.entries) (some te);
          timestamp = t.timestamp + 1;
        }
      ]

  -- The loop of `get`: the first entry whose key passes the test, stamped anew.
  unfoldable pub touch :
      (K → Bool) → ℕ → List (Option (TlbEntry K E)) → Option (E × List (Option (TlbEntry K E)))
  touch fn now [] = none
  touch fn now (none ∷ es) = Option.map (λ r. (r.0, none ∷ r.1)) (touch fn now es)
  touch fn now (some t ∷ es) =
      let later = Option.map (λ r. (r.0, some t ∷ r.1)) (touch fn now es) in
      if fn t.key then some (t.entry, some (record t { timestamp = now }) ∷ es) else later

  unfoldable pub get : (K → Bool) → Tlb K E → Option E × Tlb K E
  unfolding touch
  get fn t = elim (touch fn t.timestamp t.entries) [
    | none ↦ (none, t)
    | some (e, es) ↦ (some e, record { entries = es; timestamp = t.timestamp + 1 })
  ]

  clear_slots : List (Option (TlbEntry K E)) → List (Option (TlbEntry K E))
  clear_slots [] = []
  clear_slots (e ∷ es) = none ∷ clear_slots es

  unfoldable pub clear : Tlb K E → Tlb K E
  unfolding clear_slots
  clear t = record { entries = clear_slots t.entries; timestamp = 0 }
