-- ===== src/Ori/BlockRegions/Tests.antt =====
-- The runs of the test cases of block_regions.hpp, and the theorems at concrete lists.
use itoyori.Prelude.{ℕ, ◌≡◌, ◌↔◌, refl, true, false, [], ◌∷◌, arith}
use itoyori.Ori.BlockRegions.{
  Regions, region, absorb, add, remove, include, inverse, size, get_intersections, remove_case,
  remove_by, meet_case,
}
use itoyori.Ori.BlockRegions.Covers.{covers, IsSorted}
use itoyori.Ori.BlockRegions.Updates.{add_union, remove_difference}
use itoyori.Ori.BlockRegions.Queries.{missing, include_iff, inverse_complement}
use itoyori.Ori.BlockRegions.Intersection.{get_intersections_meet}

abbrev four : Regions
four = region 2 5 ∷ region 6 9 ∷ region 11 20 ∷ region 50 100 ∷ []

abbrev three : Regions
three = region 3 4 ∷ region 9 15 ∷ region 16 19 ∷ []

add_runs :
    (add (region 11 20) (region 2 5 ∷ []) ≡ region 2 5 ∷ region 11 20 ∷ [])
    × (add (region 20 21) (region 2 5 ∷ region 11 20 ∷ []) ≡ region 2 5 ∷ region 11 21 ∷ [])
    × (add (region 8 23) (region 2 5 ∷ region 11 23 ∷ []) ≡ region 2 5 ∷ region 8 23 ∷ [])
    × (add (region 7 25) (region 2 5 ∷ region 8 23 ∷ []) ≡ region 2 5 ∷ region 7 25 ∷ [])
    × (add (region 0 7) (region 2 5 ∷ region 7 25 ∷ []) ≡ region 0 25 ∷ [])
    × (add (region 0 120) (region 0 25 ∷ region 30 50 ∷ region 60 100 ∷ []) ≡ region 0 120 ∷ [])
    × (add (region 300 600) (region 0 120 ∷ region 200 300 ∷ region 400 500 ∷ region 600 700 ∷ [])
        ≡ region 0 120 ∷ region 200 700 ∷ [])
unfolding add absorb
add_runs = (refl, refl, refl, refl, refl, refl, refl)

remove_runs :
    (remove (region 6 9) four ≡ region 2 5 ∷ region 11 20 ∷ region 50 100 ∷ [])
    × (remove (region 4 10) four ≡ region 2 4 ∷ region 11 20 ∷ region 50 100 ∷ [])
    × (remove (region 70 80) four
        ≡ region 2 5 ∷ region 6 9 ∷ region 11 20 ∷ region 50 70 ∷ region 80 100 ∷ [])
    × (remove (region 18 55) four ≡ region 2 5 ∷ region 6 9 ∷ region 11 18 ∷ region 55 100 ∷ [])
    × (remove (region 0 110) four ≡ [])
unfolding remove remove_by remove_case
remove_runs = (refl, refl, refl, refl, refl)

include_runs :
    (include (region 2 5) four ≡ true)
    × (include (region 3 4) four ≡ true)
    × (include (region 7 9) four ≡ true)
    × (include (region 50 100) four ≡ true)
    × (include (region 9 11) four ≡ false)
    × (include (region 3 6) four ≡ false)
    × (include (region 2 100) four ≡ false)
    × (include (region 0 3) four ≡ false)
unfolding include
include_runs = (refl, refl, refl, refl, refl, refl, refl, refl)

inverse_runs :
    (inverse (region 0 120) four
      ≡ region 0 2 ∷ region 5 6 ∷ region 9 11 ∷ region 20 50 ∷ region 100 120 ∷ [])
    × (inverse (region 0 25) four ≡ region 0 2 ∷ region 5 6 ∷ region 9 11 ∷ region 20 25 ∷ [])
    × (inverse (region 8 15) four ≡ region 9 11 ∷ [])
    × (inverse (region 30 40) four ≡ region 30 40 ∷ [])
    × (inverse (region 60 90) four ≡ [])
    × (inverse (region 2 6) four ≡ region 5 6 ∷ [])
unfolding inverse
inverse_runs = (refl, refl, refl, refl, refl, refl)

get_intersections_runs :
    get_intersections four three ≡ region 3 4 ∷ region 11 15 ∷ region 16 19 ∷ []
unfolding get_intersections meet_case
get_intersections_runs = refl

size_runs : size four ≡ 65
unfolding size
size_runs = refl

four-IsSorted : IsSorted four
four-IsSorted = omega arith

add_union_example : IsSorted (add (region 4 12) four) × (covers (add (region 4 12) four) 10 ≡ true)
add_union_example = add_union (region 4 12) four 10 (omega arith) four-IsSorted

remove_difference_example :
    IsSorted (remove (region 15 60) four) × (covers (remove (region 15 60) four) 55 ≡ false)
remove_difference_example = remove_difference (region 15 60) four 55 (omega arith) four-IsSorted

include_iff_example :
    (include (region 12 19) four ≡ true) ↔ ((x : ℕ) → missing (region 12 19) four x ≡ false)
include_iff_example = include_iff (region 12 19) four (omega arith) four-IsSorted

inverse_complement_example :
    IsSorted (inverse (region 8 15) four) × (covers (inverse (region 8 15) four) 10 ≡ true)
inverse_complement_example = inverse_complement (region 8 15) four 10 (omega arith) four-IsSorted

get_intersections_meet_example :
    IsSorted (get_intersections four three) × (covers (get_intersections four three) 16 ≡ true)
get_intersections_meet_example = get_intersections_meet four three 16 four-IsSorted (omega arith)
