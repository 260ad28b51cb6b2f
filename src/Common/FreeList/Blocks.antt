-- ===== src/Common/FreeList/Blocks.antt =====
-- The addresses that a free list stands for, and the form in which it is kept.
use itoyori.Prelude.{
  ℕ, suc, ◌+◌, ◌≤◌, ◌<◌, ◌^◌, ◌≡◌, refl, Bool, false, ◌&&◌, ◌||◌, [], ◌∷◌, arith, ltb, leb,
}
use itoyori.Common.FreeList.{FreeList}

-- The address lies in the block of `size` bytes at `addr`.
abbrev pub within : ℕ → ℕ → ℕ → Bool
within addr size x = leb addr x && ltb x (addr + size)

abbrev pub free : FreeList → ℕ → Bool
free [] x = false
free (e ∷ fl) x = within e.addr e.size x || free fl x

-- Nonempty entries at or behind `lo`, in order, below 2 ^ 64, with a gap between any two.
abbrev pub From : ℕ → FreeList → Type 0
From lo [] = Unit {0}
From lo (e ∷ fl) =
    (lo ≤ e.addr) × (0 < e.size) × (e.addr + e.size < 2 ^ 64) × From (suc (e.addr + e.size)) fl

abbrev pub IsCoalesced : FreeList → Type 0
IsCoalesced fl = From 0 fl

pub From-mono : {lo hi : ℕ} (fl : FreeList) → lo ≤ hi → From hi fl → From lo fl
From-mono [] h a = tt
From-mono (e ∷ fl) h a = (omega arith, a.1, a.2, a.3)

pub free_below : (lo : ℕ) (fl : FreeList) (x : ℕ) → From lo fl → x < lo → free fl x ≡ false
free_below lo [] x a h = refl
free_below lo (e ∷ fl) x a h = ground (arith, free_below (suc (e.addr + e.size)) fl x a.3)
