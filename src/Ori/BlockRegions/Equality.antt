-- ===== src/Ori/BlockRegions/Equality.antt =====
-- A sorted list is the only one that stands for its bytes, so `operator==` decides set equality.
use itoyori.Prelude.{ℕ, suc, ◌≡◌, ◌↔◌, refl, true, [], ◌∷◌, arith}
use itoyori.Ori.BlockRegions.{Region, Regions, regions_eq}
use itoyori.Ori.BlockRegions.Covers.{covers, Above, IsSorted, covers_below}

module _ (r s : Region) (rs ss : Regions) (lo hi : ℕ) (a : Above lo (r ∷ rs))
    (b : Above hi (s ∷ ss)) (same : (x : ℕ) → covers (r ∷ rs) x ≡ covers (s ∷ ss) x) where
  same-begin : r.begin ≡ s.begin
  same-begin = ground (
    arith,
    same r.begin,
    same s.begin,
    covers_below (suc r.end) rs s.begin a.2,
    covers_below (suc s.end) ss r.begin b.2,
  )

  same-end : r.end ≡ s.end
  same-end = ground (
    arith,
    same-begin,
    same r.end,
    same s.end,
    covers_below (suc r.end) rs r.end a.2,
    covers_below (suc s.end) ss s.end b.2,
  )

  same-rest : (x : ℕ) → covers rs x ≡ covers ss x
  same-rest x = ground (
    arith,
    same-begin,
    same-end,
    same x,
    covers_below (suc r.end) rs x a.2,
    covers_below (suc s.end) ss x b.2,
  )

regions_eq_of_same :
    (lo hi : ℕ) (rs ss : Regions)
    → Above lo rs
    → Above hi ss
    → ((x : ℕ) → covers rs x ≡ covers ss x)
    → regions_eq rs ss ≡ true
unfolding regions_eq
regions_eq_of_same lo hi [] [] a b same = refl
regions_eq_of_same lo hi [] (s ∷ ss) a b same = ground (arith, same s.begin)
regions_eq_of_same lo hi (r ∷ rs) [] a b same = ground (arith, same r.begin)
regions_eq_of_same lo hi (r ∷ rs) (s ∷ ss) a b same = ground (
  arith,
  same-begin r s rs ss lo hi a b same,
  same-end r s rs ss lo hi a b same,
  regions_eq_of_same (suc r.end) (suc s.end) rs ss a.2 b.2 (same-rest r s rs ss lo hi a b same),
)

same_of_regions_eq : (rs ss : Regions) (x : ℕ) → regions_eq rs ss ≡ true → covers rs x ≡ covers ss x
unfolding regions_eq
same_of_regions_eq [] [] x h = refl
same_of_regions_eq [] (s ∷ ss) x h = cc
same_of_regions_eq (r ∷ rs) [] x h = cc
same_of_regions_eq (r ∷ rs) (s ∷ ss) x h = ground (arith, same_of_regions_eq rs ss x)

-- On sorted lists operator== answers true exactly if the two lists stand for the same bytes.
pub regions_eq_iff :
    (rs ss : Regions)
    → IsSorted rs
    → IsSorted ss
    → (regions_eq rs ss ≡ true) ↔ ((x : ℕ) → covers rs x ≡ covers ss x)
regions_eq_iff rs ss a b = ((λ h x. same_of_regions_eq rs ss x h), regions_eq_of_same 0 0 rs ss a b)
