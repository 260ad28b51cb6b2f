-- ===== src/Ori/BlockRegions/Updates.antt =====
-- `add` and `remove` are the union with a region and the difference from it.
use itoyori.Prelude.{ℕ, suc, ◌≤◌, ◌<◌, ◌≡◌, refl, ◌&&◌, ◌||◌, not, [], ◌∷◌, arith}
use itoyori.Ori.BlockRegions.{
  Region, Regions, get_union, absorb, add, remove, RemoveCase, stop, skip, erase, cut_begin,
  cut_end, split, wrong, remove_case, remove_by,
}
use itoyori.Ori.BlockRegions.Covers.{inside, covers, Above, IsSorted, Above-mono, covers_below}

absorb-covers :
    (it : Region) (lo : ℕ) (rs : Regions) (x : ℕ)
    → it.begin < it.end
    → it.begin ≤ lo
    → Above lo rs
    → covers (absorb it rs) x ≡ (inside it x || covers rs x)
unfolding absorb
absorb-covers it lo [] x h k a = refl
absorb-covers it lo (n ∷ rs) x h k a =
    ground (arith, absorb-covers (get_union it n) (suc n.end) rs x (omega arith) (omega arith) a.2)

absorb-Above :
    (it : Region) (lo hi : ℕ) (rs : Regions)
    → it.begin < it.end
    → lo ≤ it.begin
    → it.begin ≤ hi
    → Above hi rs
    → Above lo (absorb it rs)
unfolding absorb
absorb-Above it lo hi [] h k l a = (k, h, tt)
absorb-Above it lo hi (n ∷ rs) h k l a = ground (
  arith,
  absorb-Above (get_union it n) lo (suc n.end) rs (omega arith) (omega arith) (omega arith) a.2,
)

add-covers :
    (br : Region) (lo : ℕ) (rs : Regions) (x : ℕ)
    → br.begin < br.end
    → Above lo rs
    → covers (add br rs) x ≡ (inside br x || covers rs x)
unfolding add
add-covers br lo [] x h a = refl
add-covers br lo (n ∷ rs) x h a =
    ground
      (arith, add-covers br (suc n.end) rs x h a.2, absorb-covers (get_union n br) (suc n.end) rs x)

add-Above :
    (br : Region) (lo hi : ℕ) (rs : Regions)
    → br.begin < br.end
    → lo ≤ br.begin
    → lo ≤ hi
    → Above hi rs
    → Above lo (add br rs)
unfolding add
add-Above br lo hi [] h k l a = (k, h, tt)
add-Above br lo hi (n ∷ rs) h k l a = ground (
  arith,
  add-Above br (suc n.end) (suc n.end) rs h,
  absorb-Above (get_union n br) lo (suc n.end) rs,
)

-- What the tests of `remove` have found out where a branch is taken.
abbrev Found : RemoveCase → Region → Region → Type 0
Found stop br n = br.end ≤ n.begin
Found skip br n = n.end ≤ br.begin
Found erase br n = (br.begin ≤ n.begin) × (n.end ≤ br.end)
Found cut_begin br n = (br.begin ≤ n.begin) × (n.begin < br.end) × (br.end < n.end)
Found cut_end br n = (n.begin < br.begin) × (br.begin < n.end) × (n.end ≤ br.end)
Found split br n = (n.begin < br.begin) × (br.end < n.end)
Found wrong br n = ⊥

remove_case-Found : (br n : Region) → Found (remove_case br n) br n
unfolding remove_case
remove_case-Found br n = ground arith

remove_by-covers :
    (c : RemoveCase) (br n : Region) (rs removed : Regions) (x : ℕ)
    → br.begin < br.end
    → n.begin < n.end
    → Found c br n
    → Above (suc n.end) rs
    → covers removed x ≡ (covers rs x && not (inside br x))
    → covers (remove_by c br n rs removed) x ≡ (covers (n ∷ rs) x && not (inside br x))
unfolding remove_by
remove_by-covers stop br n rs removed x h k f a ih = ground (arith, covers_below (suc n.end) rs x a)
remove_by-covers split br n rs removed x h k f a ih =
    ground (arith, covers_below (suc n.end) rs x a)
remove_by-covers _ br n rs removed x h k f a ih = ground arith

pub remove-covers :
    (br : Region) (lo : ℕ) (rs : Regions) (x : ℕ)
    → br.begin < br.end
    → Above lo rs
    → covers (remove br rs) x ≡ (covers rs x && not (inside br x))
unfolding remove
remove-covers br lo [] x h a = refl
remove-covers br lo (n ∷ rs) x h a =
    remove_by-covers (remove_case br n) br n rs _ x h a.1 (remove_case-Found br n) a.2
      (remove-covers br (suc n.end) rs x h a.2)

remove_by-Above :
    (c : RemoveCase) (br n : Region) (lo : ℕ) (rs removed : Regions)
    → br.begin < br.end
    → Found c br n
    → Above lo (n ∷ rs)
    → Above (suc n.end) removed
    → Above lo (remove_by c br n rs removed)
unfolding remove_by
remove_by-Above stop br n lo rs removed h f a ih = a
remove_by-Above erase br n lo rs removed h f a ih = Above-mono removed (omega arith) ih
remove_by-Above cut_end br n lo rs removed h f a ih =
    (omega arith, f.0, Above-mono removed (omega arith) ih)
remove_by-Above skip br n lo rs removed h f a ih = (a.0, a.1, ih)
remove_by-Above cut_begin br n lo rs removed h f a ih = (omega arith, f.2, ih)
remove_by-Above split br n lo rs removed h f a ih = (a.0, f.0, (omega arith, f.1, a.2))
remove_by-Above wrong br n lo rs removed h f a ih = absurd f

pub remove-Above :
    (br : Region) (lo : ℕ) (rs : Regions)
    → br.begin < br.end
    → Above lo rs
    → Above lo (remove br rs)
unfolding remove
remove-Above br lo [] h a = tt
remove-Above br lo (n ∷ rs) h a =
    remove_by-Above (remove_case br n) br n lo rs _ h (remove_case-Found br n) a
      (remove-Above br (suc n.end) rs h a.2)

module _ (br : Region) (rs : Regions) (x : ℕ) (nonempty : br.begin < br.end)
    (sorted : IsSorted rs) where
  -- Adding a nonempty region to a sorted list gives a sorted list whose bytes are those of the
  -- region and those of the list.
  pub add_union : IsSorted (add br rs) × (covers (add br rs) x ≡ (inside br x || covers rs x))
  add_union = (
    add-Above br 0 0 rs nonempty (omega arith) (omega arith) sorted,
    add-covers br 0 rs x nonempty sorted,
  )

  -- Removing a nonempty region from a sorted list gives a sorted list whose bytes are those of
  -- the list that are not in the region.
  pub remove_difference :
      IsSorted (remove br rs) × (covers (remove br rs) x ≡ (covers rs x && not (inside br x)))
  remove_difference =
      (remove-Above br 0 rs nonempty sorted, remove-covers br 0 rs x nonempty sorted)
