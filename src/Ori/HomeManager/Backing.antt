-- ===== src/Ori/HomeManager/Backing.antt =====
-- include/ityr/ori/home_manager.hpp: what the calls of mmap so far leave behind an address.
use itoyori.Prelude.{
  ℕ, ◌+◌, ◌-◌, ◌%◌, ◌≤◌, ◌<◌, ◌≡◌, ◌≢◌, ◌⊎◌, Bool, false, ◌&&◌, List, [], ◌∷◌, Option, none, some,
  arith, ltb, leb, if◌then◌else◌,
}
use itoyori.Ori.HomeManager.{Mapping, unmap, map_to_vm}

abbrev pub in_range : ℕ → ℕ → ℕ → Bool
in_range b size x = leb b x && ltb x (b + size)

-- The physical memory behind an address and the place in it; none if nothing is mapped there.
pub backing : List Mapping → ℕ → Option (ℕ × ℕ)
backing [] x = none
backing (unmap b size ∷ log) x =
    let before = backing log x in if in_range b size x then none else before
backing (map_to_vm pm b size pm_offset ∷ log) x =
    let before = backing log x in
    if in_range b size x then some (pm, pm_offset + (x - b)) else before

-- The segments of the allocations that are in memory of this node, by their addresses.
pub record HomeSegments (block_size : ℕ) : Type 1 where
  pub IsSegment : ℕ → Type 0
  pub size_of : ℕ → ℕ
  pub pm_of : ℕ → ℕ
  pub offset_of : ℕ → ℕ
  pub positive : (a : ℕ) → IsSegment a → 0 < a
  pub aligned : (a : ℕ) → IsSegment a → a % block_size ≡ 0
  pub apart :
      (a b : ℕ) → IsSegment a → IsSegment b → a ≢ b → (a + size_of a ≤ b) ⊎ (b + size_of b ≤ a)

module _ {block_size : ℕ} (h : HomeSegments block_size) where
  open h use {IsSegment, size_of, pm_of, offset_of}

  -- Each byte of the segment has its place behind it.
  abbrev pub Backs : List Mapping → ℕ → Type 0
  Backs log a =
      (x : ℕ) → a ≤ x → x < a + size_of a → backing log x ≡ some (pm_of a, offset_of a + (x - a))

  pub map-Backs :
      (log : List Mapping) (a : ℕ) → Backs (map_to_vm (pm_of a) a (size_of a) (offset_of a) ∷ log) a
  unfolding backing
  map-Backs log a x l r = ground (arith, l, r)

  outside :
      (a b x : ℕ)
      → IsSegment a
      → IsSegment b
      → a ≢ b
      → b ≤ x
      → x < b + size_of b
      → in_range a (size_of a) x ≡ false
  outside a b x ia ib ne l r = ground (arith, h.apart a b ia ib ne, l, r)

  pub map-Backs_apart :
      (log : List Mapping) (a b pm pm_offset : ℕ)
      → IsSegment a
      → IsSegment b
      → a ≢ b
      → Backs log b
      → Backs (map_to_vm pm a (size_of a) pm_offset ∷ log) b
  unfolding backing
  map-Backs_apart log a b pm pm_offset ia ib ne k x l r = rw (outside a b x ia ib ne l r) (k x l r)

  pub unmap-Backs_apart :
      (log : List Mapping) (a b : ℕ)
      → IsSegment a
      → IsSegment b
      → a ≢ b
      → Backs log b
      → Backs (unmap a (size_of a) ∷ log) b
  unfolding backing
  unmap-Backs_apart log a b ia ib ne k x l r = rw (outside a b x ia ib ne l r) (k x l r)
