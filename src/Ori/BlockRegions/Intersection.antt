-- ===== src/Ori/BlockRegions/Intersection.antt =====
-- `get_intersection` on two lists is the intersection of the two sets of bytes.
use itoyori.Prelude.{
  ℕ, suc, ◌≤◌, ◌<◌, ◌≡◌, refl, ◌&&◌, ◌||◌, Bool, false, ap, ◌∙◌, [], ◌∷◌, arith, max,
}
use itoyori.Ori.BlockRegions.{
  Region, Regions, MeetCase, before, behind, ends_first, ends_later, meet_case, get_intersections,
  get_intersection,
}
use itoyori.Ori.BlockRegions.Covers.{inside, covers, Above, IsSorted, covers_below}

abbrev Met : MeetCase → Region → Region → Type 0
Met before r s = r.end ≤ s.begin
Met behind r s = s.end ≤ r.begin
Met ends_first r s = (s.begin < r.end) × (r.begin < s.end) × (r.end ≤ s.end)
Met ends_later r s = (s.begin < r.end) × (r.begin < s.end) × (s.end < r.end)

meet_case-Met : (r s : Region) → Met (meet_case r s) r s
unfolding meet_case
meet_case-Met r s = ground arith

-- One lemma for all rounds: a property of the rest in each case gives it for the whole.
meet_cases {ℓ} :
    (P : Regions → Type ℓ) (r s : Region) (rs ss : Regions)
    → ((r.end ≤ s.begin) → P (get_intersections rs (s ∷ ss)))
    → ((s.end ≤ r.begin) → P (get_intersections (r ∷ rs) ss))
    → (Met ends_first r s → P (get_intersection r s ∷ get_intersections rs (s ∷ ss)))
    → (Met ends_later r s → P (get_intersection r s ∷ get_intersections (r ∷ rs) ss))
    → P (get_intersections (r ∷ rs) (s ∷ ss))
unfolding get_intersections
meet_cases P r s rs ss f g h k = go (meet_case r s) (meet_case-Met r s) refl
  where
    go : (c : MeetCase) → Met c r s → meet_case r s ≡ c → P (get_intersections (r ∷ rs) (s ∷ ss))
    go before m e = rw (e, get_intersections) (f m)
    go behind m e = rw (e, get_intersections) (g m)
    go ends_first m e = rw (e, get_intersections) (h m)
    go ends_later m e = rw (e, get_intersections) (k m)

-- One round at the byte `x`; `p` and `q` tell whether the rests have it.
module _ (r s : Region) (x : ℕ) (p q : Bool) where
  round-before :
      r.end ≤ s.begin
      → s.begin < s.end
      → (x < suc s.end → q ≡ false)
      → (p && (inside s x || q)) ≡ ((inside r x || p) && (inside s x || q))
  round-before m n low = ground arith

  round-behind :
      s.end ≤ r.begin
      → r.begin < r.end
      → (x < suc r.end → p ≡ false)
      → ((inside r x || p) && q) ≡ ((inside r x || p) && (inside s x || q))
  round-behind m n low = ground arith

  round-ends_first :
      Met ends_first r s
      → (x < suc s.end → q ≡ false)
      → (inside (get_intersection r s) x || (p && (inside s x || q)))
        ≡ ((inside r x || p) && (inside s x || q))
  round-ends_first m low = ground arith

  round-ends_later :
      Met ends_later r s
      → (x < suc r.end → p ≡ false)
      → (inside (get_intersection r s) x || ((inside r x || p) && q))
        ≡ ((inside r x || p) && (inside s x || q))
  round-ends_later m low = ground arith

intersections-covers :
    (lo hi : ℕ) (rs ss : Regions) (x : ℕ)
    → Above lo rs
    → Above hi ss
    → covers (get_intersections rs ss) x ≡ (covers rs x && covers ss x)
unfolding get_intersections
intersections-covers lo hi [] ss x a b = refl
intersections-covers lo hi (r ∷ rs) [] x a b = ground arith
intersections-covers lo hi (r ∷ rs) (s ∷ ss) x a b =
    let drop_r = intersections-covers (suc r.end) hi rs (s ∷ ss) x a.2 b in
    let drop_s = intersections-covers lo (suc s.end) (r ∷ rs) ss x a b.2 in
    let low_r = covers_below (suc r.end) rs x a.2 in
    let low_s = covers_below (suc s.end) ss x b.2 in
    meet_cases (λ m. covers m x ≡ (covers (r ∷ rs) x && covers (s ∷ ss) x)) r s rs ss
      (λ m. drop_r ∙ round-before r s x _ _ m b.1 low_s)
      (λ m. drop_s ∙ round-behind r s x _ _ m a.1 low_r)
      (λ m. ap (◌||◌ _) drop_r ∙ round-ends_first r s x _ _ m low_s)
      (λ m. ap (◌||◌ _) drop_s ∙ round-ends_later r s x _ _ m low_r)

intersections-Above :
    (lo hi k : ℕ) (rs ss : Regions)
    → k ≤ max lo hi
    → Above lo rs
    → Above hi ss
    → Above k (get_intersections rs ss)
unfolding get_intersections
intersections-Above lo hi k [] ss h a b = tt
intersections-Above lo hi k (r ∷ rs) [] h a b = tt
intersections-Above lo hi k (r ∷ rs) (s ∷ ss) h a b =
    meet_cases (Above k) r s rs ss
      (λ m. intersections-Above (suc r.end) hi k rs (s ∷ ss) (omega arith) a.2 b)
      (λ m. intersections-Above lo (suc s.end) k (r ∷ rs) ss (omega arith) a b.2)
      (λ m. (
        omega arith,
        omega arith,
        intersections-Above (suc r.end) hi _ rs (s ∷ ss) (omega arith) a.2 b,
      ))
      (λ m. (
        omega arith,
        omega arith,
        intersections-Above lo (suc s.end) _ (r ∷ rs) ss (omega arith) a b.2,
      ))

-- get_intersection of two sorted lists is a sorted list whose bytes are those that both have.
pub get_intersections_meet :
    (rs ss : Regions) (x : ℕ)
    → IsSorted rs
    → IsSorted ss
    → IsSorted (get_intersections rs ss)
      × (covers (get_intersections rs ss) x ≡ (covers rs x && covers ss x))
get_intersections_meet rs ss x a b =
    (intersections-Above 0 0 0 rs ss (omega arith) a b, intersections-covers 0 0 rs ss x a b)
