-- ===== src/Ori/CacheSystem/Maps.antt =====
-- The laws of the table and of the LRU list.
use itoyori.Prelude.{
  ℕ, zero, suc, ◌+◌, ◌<◌, ◌≡◌, List, [], ◌∷◌, ◌++◌, none, some, arith, ◌==◌, if◌then◌else◌, ltb,
}
use itoyori.Ori.CacheSystem.{find, erase, assign, unlink, move_to_back, range_from}

pub find-erase :
    (j k : ℕ) (m : List (ℕ × ℕ)) → find j (erase k m) ≡ (if k == j then none else find j m)
unfolding find erase
find-erase j k [] = ground arith
find-erase j k ((a, i) ∷ m) = ground (arith, find-erase j k m)

pub find-assign :
    (j k i : ℕ) (m : List (ℕ × ℕ)) → find j (assign k i m) ≡ (if k == j then some i else find j m)
unfolding find
find-assign j k i m = ground (arith, find-erase j k m)

-- How often an index stands in the list.
unfoldable pub occurs : ℕ → List ℕ → ℕ
occurs i [] = 0
occurs i (j ∷ l) = (if j == i then 1 else 0) + occurs i l

pub occurs-append : (i : ℕ) (l m : List ℕ) → occurs i (l ++ m) ≡ occurs i l + occurs i m
unfolding occurs
occurs-append i [] m = omega arith
occurs-append i (j ∷ l) m = omega (arith, occurs-append i l m)

occurs-unlink :
    (i idx : ℕ) (l : List ℕ)
    → 0 < occurs idx l
    → occurs i (unlink idx l) + (if idx == i then 1 else 0) ≡ occurs i l
unfolding occurs unlink
occurs-unlink i idx [] h = absurd (omega arith)
occurs-unlink i idx (j ∷ l) h = ground (arith, occurs-unlink i idx l)

-- Moving an index of the list to its back keeps how often each stands there.
pub occurs-move_to_back :
    (i idx : ℕ) (l : List ℕ) → 0 < occurs idx l → occurs i (move_to_back idx l) ≡ occurs i l
unfolding move_to_back occurs
occurs-move_to_back i idx l h =
    ground (arith, occurs-append i (unlink idx l) (idx ∷ []), occurs-unlink i idx l h)

pub occurs-range_from :
    (i a n : ℕ)
    → occurs i (range_from a n) ≡ (if ltb i a then 0 else if ltb i (a + n) then 1 else 0)
unfolding occurs range_from
occurs-range_from i a zero = ground arith
occurs-range_from i a (suc n) = ground (arith, occurs-range_from i (a + 1) n)
