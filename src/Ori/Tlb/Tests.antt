-- ===== src/Ori/Tlb/Tests.antt =====
-- The run of the test case of tlb.hpp, and the theorems at a concrete tlb.
use itoyori.Prelude.{ℕ, ◌≡◌, refl, [], ◌∷◌, Option, none, some, arith, ◌==◌, set, get_elem?}
use itoyori.Ori.Tlb.{Tlb, TlbEntry, empty, add, get, clear, fill, touch, victim, stamp}
use itoyori.Ori.Tlb.Stamps.{IsStamped, AllFrom, get-IsStamped}
use itoyori.Ori.Tlb.Lookup.{add_evicts_oldest, get-add-get}

abbrev slot : ℕ → ℕ → ℕ → Option (TlbEntry ℕ ℕ)
slot k e s = some (record { key = k; entry = e; timestamp = s })

-- Three slots after adding 1, 2, 3 and looking 1 up.
abbrev used : Tlb ℕ ℕ
used = record { entries = slot 1 10 3 ∷ slot 2 20 1 ∷ slot 3 30 2 ∷ []; timestamp = 4 }

used_run : (get (◌==◌ 1) (add 3 30 (add 2 20 (add 1 10 (empty 3))))).1 ≡ used
unfolding add get fill touch
used_run = refl

evict_run : (add 4 40 used).entries ≡ slot 1 10 3 ∷ slot 4 40 4 ∷ slot 3 30 2 ∷ []
unfolding add fill victim
evict_run = refl

clear_run : (get (◌==◌ 1) (clear used)).0 ≡ none
unfolding clear get touch
clear_run = refl

used-IsStamped : IsStamped used
used-IsStamped = omega arith

get-IsStamped_example : IsStamped (get (◌==◌ 2) used).1
get-IsStamped_example = get-IsStamped (◌==◌ 2) used used-IsStamped

add_evicts_oldest_example :
    (i : ℕ) × (v : Option (TlbEntry ℕ ℕ)) × (get_elem? used.entries i ≡ some v)
    × AllFrom (stamp v) used.entries
    × ((add 4 40 used).entries ≡ set used.entries i (slot 4 40 4))
add_evicts_oldest_example = add_evicts_oldest 4 40 used (λ e. cc) tt

get-add-get_example : (get (◌==◌ 2) (add 4 40 (get (◌==◌ 2) used).1)).0 ≡ some 20
unfolding get touch
get-add-get_example = get-add-get (◌==◌ 2) 4 20 40 used tt (omega arith) used-IsStamped refl refl
