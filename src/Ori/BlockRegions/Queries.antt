-- ===== src/Ori/BlockRegions/Queries.antt =====
-- `include`, `inverse`, `get_intersection` and `operator==` against the sets of bytes.
use itoyori.Prelude.{
  ℕ, suc, ◌<◌, ◌≡◌, ◌↔◌, Bool, true, false, ◌&&◌, not, [], ◌∷◌, arith, ltb, leb, if◌then◌else◌,
  Bool-cases, inl, inr,
}
use itoyori.Ori.BlockRegions.{Region, Regions, region, include, inverse, advance}
use itoyori.Ori.BlockRegions.Covers.{inside, covers, Above, IsSorted, Above-mono, covers_below}

-- The byte lies in the region and not in the list.
abbrev pub missing : Region → Regions → ℕ → Bool
missing br rs x = inside br x && not (covers rs x)

include_sound :
    (br : Region) (rs : Regions) (x : ℕ) → include br rs ≡ true → missing br rs x ≡ false
unfolding include
include_sound br [] x h = ground arith
include_sound br (r ∷ rs) x h = ground (arith, include_sound br rs x)

-- A byte that is missing where `include` answers false.
gap : Region → Regions → ℕ
gap br [] = br.begin
gap br (r ∷ rs) =
    let later = gap br rs in
    if ltb br.begin r.begin then br.begin else if leb r.end br.begin then later else r.end

gap-missing :
    (br : Region) (lo : ℕ) (rs : Regions)
    → br.begin < br.end
    → Above lo rs
    → include br rs ≡ false
    → missing br rs (gap br rs) ≡ true
unfolding include gap
gap-missing br lo [] k a h = ground arith
gap-missing br lo (r ∷ rs) k a h = ground (
  arith,
  gap-missing br (suc r.end) rs k a.2,
  covers_below (suc r.end) rs r.end a.2,
  covers_below (suc r.end) rs br.begin a.2,
)

-- On a sorted list include answers true exactly if every byte of the nonempty region is in the
-- list.
pub include_iff :
    (br : Region) (rs : Regions)
    → br.begin < br.end
    → IsSorted rs
    → (include br rs ≡ true) ↔ ((x : ℕ) → missing br rs x ≡ false)
include_iff br rs k a = (
  (λ h x. include_sound br rs x h),
  λ none_missing. elim (Bool-cases (include br rs)) [
    | inl e ↦ e
    | inr e ↦ cc (gap-missing br 0 rs k a e, none_missing (gap br rs))
  ],
)

inverse-covers :
    (br : Region) (lo : ℕ) (rs : Regions) (x : ℕ)
    → br.begin < br.end
    → Above lo rs
    → covers (inverse br rs) x ≡ missing br rs x
unfolding inverse
inverse-covers br lo [] x k a = ground arith
inverse-covers br lo (r ∷ rs) x k a =
    ground
      (arith, inverse-covers (advance br r) (suc r.end) rs x, covers_below (suc r.end) rs x a.2)

inverse-Above :
    (br : Region) (lo : ℕ) (rs : Regions)
    → br.begin < br.end
    → Above lo rs
    → Above br.begin (inverse br rs)
unfolding inverse
inverse-Above br lo [] k a = ground arith
inverse-Above br lo (r ∷ rs) k a = ground (
  arith,
  inverse-Above (advance br r) (suc r.end) rs,
  Above-mono {lo = br.begin} {hi = r.end} (inverse (region r.end br.end) rs),
  Above-mono {lo = suc r.begin} {hi = r.end} (inverse (region r.end br.end) rs),
)

-- inverse of a sorted list in a nonempty region is a sorted list whose bytes are those of the
-- region that the list lacks.
pub inverse_complement :
    (br : Region) (rs : Regions) (x : ℕ)
    → br.begin < br.end
    → IsSorted rs
    → IsSorted (inverse br rs) × (covers (inverse br rs) x ≡ missing br rs x)
inverse_complement br rs x k a =
    (Above-mono _ (omega arith) (inverse-Above br 0 rs k a), inverse-covers br 0 rs x k a)
