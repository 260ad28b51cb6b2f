-- ===== src/Ori/BlockRegions/Covers.antt =====
-- The set of bytes that a list of regions stands for, and the form in which the lists are kept.
use itoyori.Prelude.{ℕ, suc, ◌≤◌, ◌<◌, ◌≡◌, refl, Bool, false, ◌&&◌, ◌||◌, [], ◌∷◌, arith, ltb, leb}
use itoyori.Ori.BlockRegions.{Region, Regions}

abbrev pub inside : Region → ℕ → Bool
inside r x = leb r.begin x && ltb x r.end

abbrev pub covers : Regions → ℕ → Bool
covers [] x = false
covers (r ∷ rs) x = inside r x || covers rs x

-- Nonempty regions at or behind `lo`, in order, with a gap between any two.
abbrev pub Above : ℕ → Regions → Type 0
Above lo [] = Unit {0}
Above lo (r ∷ rs) = (lo ≤ r.begin) × (r.begin < r.end) × Above (suc r.end) rs

abbrev pub IsSorted : Regions → Type 0
IsSorted rs = Above 0 rs

pub Above-mono : {lo hi : ℕ} (rs : Regions) → lo ≤ hi → Above hi rs → Above lo rs
Above-mono [] h a = tt
Above-mono (r ∷ rs) h a = (omega arith, a.1, a.2)

pub covers_below : (lo : ℕ) (rs : Regions) (x : ℕ) → Above lo rs → x < lo → covers rs x ≡ false
covers_below lo [] x a h = refl
covers_below lo (r ∷ rs) x a h = ground (arith, covers_below (suc r.end) rs x a.2)
