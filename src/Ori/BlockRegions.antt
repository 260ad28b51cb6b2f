-- ===== src/Ori/BlockRegions.antt =====
-- include/ityr/ori/block_regions.hpp: sets of byte ranges of one cache block, kept as a sorted
-- singly linked list of half-open regions. The list is std::forward_list; an iterator that walks it
-- is the recursion on the rest of the list.
pub mod Covers
pub mod Updates
pub mod Queries
pub mod Intersection
pub mod Equality
mod Tests
use itoyori.Prelude.{
  ℕ, ◌-◌, ◌+◌, min, max, Bool, true, false, ◌&&◌, ◌||◌, List, [], ◌∷◌, ltb, leb, ◌==◌,
  if◌then◌else◌,
}

-- `block_region`; `begin` and `end` are block_size_t values.
pub record Region : Type 0 where
  pub begin : ℕ
  pub end : ℕ

abbrev pub region : ℕ → ℕ → Region
region b e = record { begin = b; end = e }

-- `end - begin`, at regions with begin ≤ end.
abbrev pub region_size : Region → ℕ
region_size r = r.end - r.begin

abbrev pub region_eq : Region → Region → Bool
region_eq r s = r.begin == s.begin && r.end == s.end

abbrev pub overlap : Region → Region → Bool
overlap r s = ltb r.begin s.end && ltb s.begin r.end

abbrev pub contiguous : Region → Region → Bool
contiguous r s = r.begin == s.end || r.end == s.begin

abbrev pub get_union : Region → Region → Region
get_union r s = region (min r.begin s.begin) (max r.end s.end)

abbrev pub get_intersection : Region → Region → Region
get_intersection r s = region (max r.begin s.begin) (min r.end s.end)

abbrev pub Regions : Type 0
Regions = List Region

-- The second loop of `add`: the merged region swallows its successors while they touch it.
pub absorb : Region → Regions → Regions
absorb it [] = it ∷ []
absorb it (next ∷ rest) =
    let swallowed = absorb (get_union it next) rest in
    if leb next.begin it.end then swallowed else it ∷ next ∷ rest

-- `add`: skip what ends before `br`; then insert `br`, or merge it with what it touches.
unfoldable pub add : Region → Regions → Regions
unfolding absorb
add br [] = br ∷ []
add br (next ∷ rest) =
    let skipped = next ∷ add br rest in
    if ltb next.end br.begin
    then skipped
    else if ltb br.end next.begin
    then br ∷ next ∷ rest
    else absorb (get_union next br) rest

-- The branches of the loop of `remove`, in their order; `wrong` is its call of `die`.
pub data RemoveCase : Type 0 where
  stop skip erase cut_begin cut_end split wrong : RemoveCase

pub remove_case : Region → Region → RemoveCase
remove_case br next =
    if leb br.end next.begin
    then stop
    else if leb next.end br.begin
    then skip
    else if leb br.begin next.begin && leb next.end br.end
    then erase
    else if leb br.begin next.begin && leb br.end next.end
    then cut_begin
    else if leb next.begin br.begin && leb next.end br.end
    then cut_end
    else if leb next.begin br.begin && leb br.end next.end
    then split
    else wrong

-- What a branch puts in place of `next` and what follows it; `removed` is the loop on the rest.
-- After `split` the iterator stands before `region br.end next.end`, where the loop breaks.
pub remove_by : RemoveCase → Region → Region → Regions → Regions → Regions
remove_by stop br next rest removed = next ∷ rest
remove_by skip br next rest removed = next ∷ removed
remove_by erase br next rest removed = removed
remove_by cut_begin br next rest removed = region br.end next.end ∷ removed
remove_by cut_end br next rest removed = region next.begin br.begin ∷ removed
remove_by split br next rest removed = region next.begin br.begin ∷ region br.end next.end ∷ rest
remove_by wrong br next rest removed = next ∷ rest

unfoldable pub remove : Region → Regions → Regions
remove br [] = []
remove br (next ∷ rest) = remove_by (remove_case br next) br next rest (remove br rest)

unfoldable pub include : Region → Regions → Bool
include br [] = false
include br (r ∷ rest) =
    let later = include br rest in
    if ltb br.begin r.begin then false else if leb br.end r.end then true else later

-- `br.begin = e` of `inverse`, if the region ends behind `br.begin`.
abbrev pub advance : Region → Region → Region
advance br r = if ltb br.begin r.end then region r.end br.end else br

-- The loop of `inverse`, whose state is what is left of `br`; a `break` leaves nothing of it.
unfoldable pub inverse : Region → Regions → Regions
inverse br [] = if ltb br.begin br.end then br ∷ [] else []
inverse br (r ∷ rest) =
    let later = inverse (advance br r) rest in
    let tail = if ltb br.begin r.end && leb br.end r.end then [] else later in
    if ltb br.begin r.begin then region br.begin (min r.begin br.end) ∷ tail else tail

-- The sum of the sizes.
pub size : Regions → ℕ
size [] = 0
size (r ∷ rest) = region_size r + size rest

-- `operator==` of the lists.
pub regions_eq : Regions → Regions → Bool
regions_eq [] [] = true
regions_eq [] (s ∷ ss) = false
regions_eq (r ∷ rs) [] = false
regions_eq (r ∷ rs) (s ∷ ss) = region_eq r s && regions_eq rs ss

-- What a round of `get_intersection` on two lists does: step over one of the heads, or intersect
-- them and step over the one that ends first.
pub data MeetCase : Type 0 where
  before behind ends_first ends_later : MeetCase

pub meet_case : Region → Region → MeetCase
meet_case r s =
    if leb r.end s.begin
    then before
    else if leb s.end r.begin
    then behind
    else if leb r.end s.end
    then ends_first
    else ends_later

-- `get_intersection` of two lists: the two iterators are the two arguments.
pub get_intersections : Regions → Regions → Regions
get_intersections [] ss = []
get_intersections (r ∷ rs) [] = []
get_intersections (r ∷ rs) (s ∷ ss) = elim (meet_case r s) [
  | before ↦ get_intersections rs (s ∷ ss)
  | behind ↦ get_intersections (r ∷ rs) ss
  | ends_first ↦ get_intersection r s ∷ get_intersections rs (s ∷ ss)
  | ends_later ↦ get_intersection r s ∷ get_intersections (r ∷ rs) ss
]
