-- ===== src/Common/FreeList/Get.antt =====
-- `get` carves a block out of the free addresses.
use itoyori.Prelude.{
  ℕ, suc, ◌+◌, ◌≤◌, ◌<◌, ◌^◌, ◌≡◌, ◌↔◌, refl, false, ◌&&◌, ◌||◌, [], ◌∷◌, Option, none, some, arith,
  ltb, add64, sub64, ◌==◌, Bool-cases, inl, inr,
}
use itoyori.Common.FreeList.{Entry, FreeList, entry, get, behind}
use itoyori.Common.FreeList.Blocks.{within, free, From, IsCoalesced, From-mono, free_below}

-- The three branches of `get` at an entry.
pub get_cases {ℓ} :
    (P : Option (ℕ × FreeList) → Type ℓ) (size : ℕ) (e : Entry) (fl : FreeList)
    → (e.size ≡ size → P (some (e.addr, fl)))
    → (size < e.size → P (some (e.addr, entry (add64 e.addr size) (sub64 e.size size) ∷ fl)))
    → (e.size < size → P (behind e (get size fl)))
    → P (get size (e ∷ fl))
unfolding get
get_cases P size e fl whole front smaller = elim (Bool-cases (e.size == size)) [
  | inl same ↦ rw same (whole (ground arith))
  | inr other ↦ rw other (elim (Bool-cases (ltb size e.size)) [
    | inl larger ↦ rw larger (front (ground arith))
    | inr not_larger ↦ rw not_larger (smaller (ground arith))
  ])
]

-- What `get` may answer on a list from `lo`.
abbrev pub Carved : ℕ → ℕ → FreeList → Option (ℕ × FreeList) → Type 0
Carved size lo fl none = Unit {0}
Carved size lo fl (some (a, fl')) =
    From lo fl'
    × (lo ≤ a)
    × (a + size < 2 ^ 64)
    × ((x : ℕ) → free fl x ≡ (within a size x || free fl' x))
    × ((x : ℕ) → (within a size x && free fl' x) ≡ false)

behind-Carved :
    (size lo : ℕ) (e : Entry) (fl : FreeList) (r : Option (ℕ × FreeList))
    → From lo (e ∷ fl)
    → Carved size (suc (e.addr + e.size)) fl r
    → Carved size lo (e ∷ fl) (behind e r)
behind-Carved size lo e fl none h c = tt
behind-Carved size lo e fl (some (a, fl')) h c =
    ((h.0, h.1, h.2, c.0), omega arith, c.2, λ x. ground (arith, c.3 x), λ x. ground (arith, c.4 x))

pub get-Carved :
    (size lo : ℕ) (fl : FreeList) → 0 < size → From lo fl → Carved size lo fl (get size fl)
unfolding get
get-Carved size lo [] k h = tt
get-Carved size lo (e ∷ fl) k h =
    get_cases (Carved size lo (e ∷ fl)) size e fl whole front
      (λ smaller. behind-Carved size lo e fl _ h (get-Carved size (suc (e.addr + e.size)) fl k h.3))
  where
    whole : e.size ≡ size → Carved size lo (e ∷ fl) (some (e.addr, fl))
    whole same = (
      From-mono fl (omega arith) h.3,
      h.0,
      omega arith,
      λ x. rw same refl,
      λ x. ground (arith, free_below (suc (e.addr + e.size)) fl x h.3),
    )

    front :
        size < e.size
        → Carved size lo
            (e ∷ fl)
            (some (e.addr, entry (add64 e.addr size) (sub64 e.size size) ∷ fl))
    front larger = (
      (omega arith, omega arith, omega arith, From-mono fl (omega arith) h.3),
      h.0,
      omega arith,
      λ x. ground arith,
      λ x. ground (arith, free_below (suc (e.addr + e.size)) fl x h.3),
    )

-- Every block is too small.
abbrev pub Lacks : ℕ → FreeList → Type 0
Lacks size [] = Unit {0}
Lacks size (e ∷ fl) = (e.size < size) × Lacks size fl

-- `get` of a positive size on a coalesced list fails exactly if every block is too small.
get-none-Lacks : (size : ℕ) (fl : FreeList) → get size fl ≡ none → Lacks size fl
unfolding get
get-none-Lacks size [] h = tt
get-none-Lacks size (e ∷ fl) h = ground (arith, get-none-Lacks size fl)

Lacks-get-none : (size : ℕ) (fl : FreeList) → Lacks size fl → get size fl ≡ none
unfolding get
Lacks-get-none size [] h = refl
Lacks-get-none size (e ∷ fl) h = ground (arith, Lacks-get-none size fl h.1)

-- get fails exactly if every entry of the list is smaller than the request.
pub get-none_iff : (size : ℕ) (fl : FreeList) → (get size fl ≡ none) ↔ Lacks size fl
get-none_iff size fl = (get-none-Lacks size fl, Lacks-get-none size fl)

module _ (size a : ℕ) (fl fl' : FreeList) (x : ℕ) (positive : 0 < size) (coalesced : IsCoalesced fl)
    (got : get size fl ≡ some (a, fl')) where
  carved : Carved size 0 fl (some (a, fl'))
  carved = rw got at (get-Carved size 0 fl positive coalesced)

  -- A block that get gives from a coalesced free list was free, its addresses and no others leave
  -- the free ones, none of them wraps, and the list stays coalesced.
  pub get_carves :
      IsCoalesced fl'
      × (a + size < 2 ^ 64)
      × (free fl x ≡ (within a size x || free fl' x))
      × ((within a size x && free fl' x) ≡ false)
  get_carves = (carved.0, carved.2, carved.3 x, carved.4 x)
