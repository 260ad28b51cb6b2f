-- ===== src/Common/FreeList/Add.antt =====
-- `add` gives a block back, and undoes `get`.
use itoyori.Prelude.{
  ℕ, zero, suc, ◌+◌, ◌≤◌, ◌<◌, ◌^◌, ◌≡◌, refl, ap, ◌∙◌, false, ◌&&◌, ◌||◌, [], ◌∷◌, Option, none,
  some, arith, ltb, add64, sub64, ◌==◌, Bool-cases, inl, inr, ◌⊎◌,
}
use itoyori.Common.FreeList.{Entry, FreeList, entry, get, behind, add, put, merge_next}
use itoyori.Common.FreeList.Blocks.{within, free, From, IsCoalesced, From-mono}
use itoyori.Common.FreeList.Get.{Carved, get-Carved, get_cases}

add64-eq : (a b : ℕ) → a + b < 2 ^ 64 → add64 a b ≡ a + b
add64-eq a b h = omega arith

merge_next-free :
    (e : Entry) (lo : ℕ) (fl : FreeList) (x : ℕ)
    → e.addr + e.size < 2 ^ 64
    → From (e.addr + e.size) fl
    → free (merge_next e fl) x ≡ (within e.addr e.size x || free fl x)
unfolding merge_next
merge_next-free e lo [] x b f = refl
merge_next-free e lo (n ∷ fl) x b f = ground arith

merge_next-From :
    (e : Entry) (lo : ℕ) (fl : FreeList)
    → lo ≤ e.addr
    → 0 < e.size
    → e.addr + e.size < 2 ^ 64
    → From (e.addr + e.size) fl
    → From lo (merge_next e fl)
unfolding merge_next
merge_next-From e lo [] l k b f = (l, k, b, tt)
merge_next-From e lo (n ∷ fl) l k b f =
    ground
      (arith, From-mono {lo = suc (e.addr + (e.size + n.size))} {hi = suc (n.addr + n.size)} fl)

-- The block has no free address.
abbrev pub IsTaken : ℕ → ℕ → FreeList → Type 0
IsTaken addr size fl = (x : ℕ) → (within addr size x && free fl x) ≡ false

rest-IsTaken :
    (addr size : ℕ) (e : Entry) (fl : FreeList) → IsTaken addr size (e ∷ fl) → IsTaken addr size fl
rest-IsTaken addr size e fl t x = ground (arith, t x)

-- A taken block that starts before the list ends before it.
taken-From :
    (addr size lo : ℕ) (fl : FreeList)
    → addr ≤ lo
    → IsTaken addr size fl
    → From lo fl
    → From (addr + size) fl
taken-From addr size lo [] l t f = tt
taken-From addr size lo (n ∷ fl) l t f = (ground (arith, t n.addr), f.1, f.2, f.3)

abbrev Apart : ℕ → ℕ → Entry → Type 0
Apart addr size e = (addr + size ≤ e.addr) ⊎ (e.addr + e.size ≤ addr)

taken-Apart :
    (addr size : ℕ) (e : Entry) (fl : FreeList)
    → 0 < size
    → 0 < e.size
    → IsTaken addr size (e ∷ fl)
    → Apart addr size e
taken-Apart addr size e fl k l t = ground (arith, t addr, t e.addr)

-- The four branches of the loop of `add` at an entry apart from the block, where no sum wraps.
put_cases {ℓ} :
    (P : FreeList → Type ℓ) (addr size : ℕ) (e : Entry) (fl : FreeList)
    → addr + size < 2 ^ 64
    → e.addr + e.size < 2 ^ 64
    → Apart addr size e
    → (addr + size ≡ e.addr → P (entry addr (e.size + size) ∷ fl))
    → (addr + size < e.addr → P (entry addr size ∷ e ∷ fl))
    → (addr ≡ e.addr + e.size → P (merge_next (entry e.addr (e.size + size)) fl))
    → (e.addr + e.size < addr → P (e ∷ put addr size fl))
    → P (put addr size (e ∷ fl))
unfolding put
put_cases P addr size e fl b c apart left front right later =
    elim (Bool-cases (add64 addr size == e.addr)) [
      | inl t ↦ rw (t, add64-eq e.size size (ground arith)) (left (ground arith))
      | inr f ↦ rw f (elim (Bool-cases (ltb (add64 addr size) e.addr)) [
        | inl t ↦ rw t (front (ground arith))
        | inr g ↦ rw g (elim (Bool-cases (addr == add64 e.addr e.size)) [
          | inl t ↦ rw (t, add64-eq e.size size (ground arith)) (right (ground arith))
          | inr h ↦ rw h (later (ground arith))
        ])
      ])
    ]

module _ (addr size : ℕ) (positive : 0 < size) (bounded : addr + size < 2 ^ 64) where
  put-free :
      (lo : ℕ) (fl : FreeList) (x : ℕ)
      → IsTaken addr size fl
      → From lo fl
      → free (put addr size fl) x ≡ (within addr size x || free fl x)
  unfolding put
  put-free lo [] x t f = refl
  put-free lo (e ∷ fl) x t f =
      put_cases (λ m. free m x ≡ (within addr size x || free (e ∷ fl) x)) addr size e fl bounded f.2
        (taken-Apart addr size e fl positive f.1 t) (λ m. ground arith) (λ m. refl)
        (λ m. ground (
          arith,
          merge_next-free (entry e.addr (e.size + size)) lo fl x (omega arith) (
              rw (← end_moves m) (
                taken-From addr size (suc (e.addr + e.size)) fl (omega arith)
                  (rest-IsTaken addr size e fl t) f.3)),
        ))
        (λ m.
          let ih = put-free (suc (e.addr + e.size)) fl x (rest-IsTaken addr size e fl t) f.3 in
          ground (arith, ih))
    where
      end_moves : addr ≡ e.addr + e.size → addr + size ≡ e.addr + (e.size + size)
      end_moves m = omega arith

  put-From :
      (lo : ℕ) (fl : FreeList)
      → lo ≤ addr
      → IsTaken addr size fl
      → From lo fl
      → From lo (put addr size fl)
  unfolding put
  put-From lo [] l t f = (l, positive, bounded, tt)
  put-From lo (e ∷ fl) l t f =
      put_cases (From lo) addr size e fl bounded f.2 (taken-Apart addr size e fl positive f.1 t)
        (λ m. (l, omega arith, omega arith, From-mono fl (omega arith) f.3))
        (λ m. (l, positive, bounded, (m, f.1, f.2, f.3)))
        (λ m. merge_next-From (entry e.addr (e.size + size)) lo fl f.0 (omega arith) (omega arith) (
          rw (← end_moves m) (
            taken-From addr size (suc (e.addr + e.size)) fl (omega arith)
              (rest-IsTaken addr size e fl t) f.3)))
        (λ m. (
          f.0,
          f.1,
          f.2,
          put-From (suc (e.addr + e.size)) fl m (rest-IsTaken addr size e fl t) f.3,
        ))
    where
      end_moves : addr ≡ e.addr + e.size → addr + size ≡ e.addr + (e.size + size)
      end_moves m = omega arith

add-put : (addr size : ℕ) (fl : FreeList) → 0 < size → add addr size fl ≡ put addr size fl
unfolding add
add-put addr size fl k = ground arith

-- Giving back a block without a free address, where its end does not wrap, frees exactly its
-- addresses besides those free before, and keeps a coalesced list coalesced.
pub add_frees :
    (addr size : ℕ) (fl : FreeList) (x : ℕ)
    → addr + size < 2 ^ 64
    → IsTaken addr size fl
    → IsCoalesced fl
    → IsCoalesced (add addr size fl)
      × (free (add addr size fl) x ≡ (within addr size x || free fl x))
unfolding add
add_frees addr zero fl x b t f = (f, ground arith)
add_frees addr (suc n) fl x b t f = rw (add-put addr (suc n) fl (omega arith)) (
  put-From addr (suc n) (omega arith) b 0 fl (omega arith) t f,
  put-free addr (suc n) (omega arith) b 0 fl x t f,
)

-- What undoes an answer of `get`.
abbrev Restores : ℕ → FreeList → Option (ℕ × FreeList) → Type 0
Restores size fl none = Unit {0}
Restores size fl (some (a, fl')) = put a size fl' ≡ fl

put_first : (e : Entry) (lo : ℕ) (fl : FreeList) → From lo (e ∷ fl) → put e.addr e.size fl ≡ e ∷ fl
unfolding put
put_first e lo [] f = refl
put_first e lo (n ∷ fl) f = ground arith

behind-Restores :
    (size lo : ℕ) (e : Entry) (fl : FreeList) (r : Option (ℕ × FreeList))
    → 0 < size
    → From lo (e ∷ fl)
    → Carved size (suc (e.addr + e.size)) fl r
    → Restores size fl r
    → Restores size (e ∷ fl) (behind e r)
behind-Restores size lo e fl none k f c r = tt
behind-Restores size lo e fl (some (a, fl')) k f c r =
    put_cases (λ m. m ≡ e ∷ fl) a size e fl' c.2 f.2 (inr (omega arith)) (λ m. absurd (omega arith))
      (λ m. absurd (omega arith)) (λ m. absurd (omega arith)) (λ m. ap (◌∷◌ e) r)

get-Restores :
    (size lo : ℕ) (fl : FreeList) → 0 < size → From lo fl → Restores size fl (get size fl)
unfolding get
get-Restores size lo [] k f = tt
get-Restores size lo (e ∷ fl) k f =
    get_cases (Restores size (e ∷ fl)) size e fl (λ same. rw (← same) (put_first e lo fl f))
      (λ larger. front larger)
      (λ smaller.
        behind-Restores size lo e fl (get size fl) k f
          (get-Carved size (suc (e.addr + e.size)) fl k f.3)
          (get-Restores size (suc (e.addr + e.size)) fl k f.3))
  where
    front :
        size < e.size
        → put e.addr size (entry (add64 e.addr size) (sub64 e.size size) ∷ fl) ≡ e ∷ fl
    front larger =
        put_cases (λ m. m ≡ e ∷ fl) e.addr size (entry (add64 e.addr size) (sub64 e.size size)) fl
          (omega arith) (omega arith) (inl (omega arith))
          (λ m. ap (λ n. entry e.addr n ∷ fl) (omega arith)) (λ m. absurd (omega arith))
          (λ m. absurd (omega arith)) (λ m. absurd (omega arith))

-- Giving back a block of positive size that get gave from a coalesced list restores the list.
pub add-get :
    (size a : ℕ) (fl fl' : FreeList)
    → 0 < size
    → IsCoalesced fl
    → get size fl ≡ some (a, fl')
    → add a size fl' ≡ fl
add-get size a fl fl' k f e = add-put a size fl' k ∙ (rw e at (get-Restores size 0 fl k f))
