-- ===== src/Ori/Core/Blocks.antt =====
-- include/ityr/ori/core.hpp: the blocks of a range and the bytes that they request.
use itoyori.Prelude.{
  ℕ, zero, suc, ◌+◌, ◌-◌, ◌%◌, ◌^◌, max, min, ◌≤◌, ◌<◌, ◌≡◌, refl, ap, ◌∙◌, inl, inr, Bool, true,
  false, ◌&&◌, List, [], ◌∷◌, some, ltb, leb, lt→ltb, if◌then◌else◌, arith,
}
use mathlib.Core.Option
use mathlib.Core.Logic.{◌⊎◌}
use native.Mathlib.Decide.{dec_lt}
use native.Mathlib.Nat.{one-le-pow}
use itoyori.Common.Pow2.{round_down_pow2}
use itoyori.Common.Pow2.Masks.{round_down_pow2_nearest}
use itoyori.Ori.Core.{BlockCall, blocks_from, for_each_block}

pub next_multiple : (b a r : ℕ) → 0 < b → a % b ≡ 0 → r % b ≡ 0 → r < a → r + b ≤ a
next_multiple b a r pos ea er lt = grind arith

not_less : (a b : ℕ) → b ≤ a → ltb a b ≡ false
not_less a b h = ground arith

-- The calls that request a byte.
pub within : ℕ → ℕ → ℕ → Bool
within b e x = leb b x && ltb x e

pub within-true : (b e x : ℕ) → b ≤ x → x < e → within b e x ≡ true
unfolding within
within-true b e x h k = ground arith

pub within-false : (b e x : ℕ) → (x < b) ⊎ (e ≤ x) → within b e x ≡ false
unfolding within
within-false b e x (inl h) = ground arith
within-false b e x (inr h) = ground arith

unfoldable pub covers : ℕ → BlockCall → Bool
covers x c = within c.req_addr_b c.req_addr_e x

unfoldable pub covering : ℕ → List BlockCall → List BlockCall
covering x [] = []
covering x (c ∷ cs) = let rest = covering x cs in if covers x c then c ∷ rest else rest

-- One call requests the byte, for the aligned block that has it.
pub record OneBlock (block_size start x : ℕ) (cs : List BlockCall) : Type 0 where
  pub call : BlockCall
  pub only : covering x cs ≡ call ∷ []
  pub aligned : call.blk_addr % block_size ≡ 0
  pub from : start ≤ call.blk_addr
  pub below : call.blk_addr ≤ x
  pub above : x < call.blk_addr + block_size

-- The bytes from `lo` to `hi` are requested once each from block `start` on, and no others.
pub record Requested (block_size lo hi start : ℕ) (cs : List BlockCall) : Type 0 where
  pub inside : (x : ℕ) → lo ≤ x → start ≤ x → x < hi → OneBlock block_size start x cs
  pub outside : (x : ℕ) → (x < lo) ⊎ ((x < start) ⊎ (hi ≤ x)) → covering x cs ≡ []

module _ (block_size : ℕ) (positive : 0 < block_size) where
  call_at : ℕ → ℕ → ℕ → BlockCall
  call_at lo hi blk = record {
    blk_addr = blk;
    req_addr_b = max lo blk;
    req_addr_e = min hi (blk + block_size);
  }

  Results : ℕ → ℕ → ℕ → ℕ → Type 0
  Results fuel lo hi blk =
      (cs : List BlockCall) × (blocks_from block_size fuel lo hi blk ≡ some cs)
      × Requested block_size lo hi blk cs

  call_at-inside :
      (x lo hi blk : ℕ)
      → lo ≤ x
      → blk ≤ x
      → x < hi
      → x < blk + block_size
      → covers x (call_at lo hi blk) ≡ true
  unfolding covers call_at within
  call_at-inside x lo hi blk l b h p = ground arith

  call_at-past : (x lo hi blk : ℕ) → blk + block_size ≤ x → covers x (call_at lo hi blk) ≡ false
  unfolding covers call_at within
  call_at-past x lo hi blk p = ground arith

  call_at-outside :
      (x lo hi blk : ℕ) → (x < lo) ⊎ ((x < blk) ⊎ (hi ≤ x)) → covers x (call_at lo hi blk) ≡ false
  unfolding covers call_at within
  call_at-outside x lo hi blk (inl p) = ground arith
  call_at-outside x lo hi blk (inr (inl p)) = ground arith
  call_at-outside x lo hi blk (inr (inr p)) = ground arith

  covering-hit :
      (x : ℕ) (c : BlockCall) (cs : List BlockCall)
      → covers x c ≡ true
      → covering x (c ∷ cs) ≡ c ∷ covering x cs
  unfolding covering
  covering-hit x c cs e = rw e refl

  covering-miss :
      (x : ℕ) (c : BlockCall) (cs : List BlockCall)
      → covers x c ≡ false
      → covering x (c ∷ cs) ≡ covering x cs
  unfolding covering
  covering-miss x c cs e = rw e refl

  none_left : (lo hi blk : ℕ) → hi ≤ blk → Requested block_size lo hi blk []
  unfolding covering
  none_left lo hi blk h = record {
    inside = λ x l b r. absurd (omega arith);
    outside = λ x out. refl;
  }

  first_block :
      (lo hi blk : ℕ) (cs : List BlockCall)
      → blk % block_size ≡ 0
      → Requested block_size lo hi (blk + block_size) cs
      → (x : ℕ) → lo ≤ x
      → blk ≤ x
      → x < hi
      → x < blk + block_size
      → OneBlock block_size blk x (call_at lo hi blk ∷ cs)
  unfolding call_at
  first_block lo hi blk cs e r x l b h p = record {
    call = call_at lo hi blk;
    only =
        covering-hit x (call_at lo hi blk) cs (call_at-inside x lo hi blk l b h p)
        ∙ ap (λ rest. call_at lo hi blk ∷ rest) (r.outside x (inr (inl p)));
    aligned = e;
    from = omega arith;
    below = b;
    above = p;
  }

  later_block :
      (lo hi blk : ℕ) (cs : List BlockCall)
      → (x : ℕ) → blk + block_size ≤ x
      → OneBlock block_size (blk + block_size) x cs
      → OneBlock block_size blk x (call_at lo hi blk ∷ cs)
  later_block lo hi blk cs x p o = record {
    call = o.call;
    only = covering-miss x (call_at lo hi blk) cs (call_at-past x lo hi blk p) ∙ o.only;
    aligned = o.aligned;
    from = omega (arith, o.from);
    below = o.below;
    above = o.above;
  }

  further :
      {x lo hi blk : ℕ}
      → (x < lo) ⊎ ((x < blk) ⊎ (hi ≤ x))
      → (x < lo) ⊎ ((x < blk + block_size) ⊎ (hi ≤ x))
  further (inl p) = inl p
  further (inr (inl p)) = inr (inl (omega arith))
  further (inr (inr p)) = inr (inr p)

  next_block :
      (lo hi blk : ℕ) (cs : List BlockCall)
      → blk % block_size ≡ 0
      → Requested block_size lo hi (blk + block_size) cs
      → Requested block_size lo hi blk (call_at lo hi blk ∷ cs)
  next_block lo hi blk cs e r = record {
    inside = λ x l b h. elim (dec_lt x (blk + block_size)) [
      | yes p ↦ first_block lo hi blk cs e r x l b h p
      | no p ↦ later_block lo hi blk cs x (omega arith) (r.inside x l (omega arith) h)
    ];
    outside = λ x out.
        covering-miss x (call_at lo hi blk) cs (call_at-outside x lo hi blk out)
        ∙ r.outside x (further out);
  }

  blocks_from-step :
      (fuel lo hi blk : ℕ) (cs : List BlockCall)
      → blk < hi
      → blocks_from block_size fuel lo hi (blk + block_size) ≡ some cs
      → blocks_from block_size (suc fuel) lo hi blk ≡ some (call_at lo hi blk ∷ cs)
  unfolding blocks_from call_at
  blocks_from-step fuel lo hi blk cs h e = rw (lt→ltb blk hi h, blocks_from) (ap (Option.map _) e)

  blocks_from-end :
      (fuel lo hi blk : ℕ) → hi ≤ blk → blocks_from block_size (suc fuel) lo hi blk ≡ some []
  unfolding blocks_from
  blocks_from-end fuel lo hi blk h = rw (not_less blk hi h, blocks_from) refl

  mod_add : (a : ℕ) → (a + block_size) % block_size ≡ a % block_size
  mod_add a = grind arith

  blocks_from-Requested :
      (fuel lo hi blk : ℕ)
      → blk % block_size ≡ 0
      → (blk < hi → hi - (blk + block_size) < fuel)
      → Results (suc fuel) lo hi blk
  unfolding Results
  blocks_from-Requested zero lo hi blk e f =
      ([], blocks_from-end 0 lo hi blk (ended f), none_left lo hi blk (ended f))
    where
      ended : (blk < hi → hi - (blk + block_size) < 0) → hi ≤ blk
      ended g = elim (dec_lt blk hi) [ yes p ↦ absurd (omega (arith, g p)) | no p ↦ omega arith ]
  blocks_from-Requested (suc fuel) lo hi blk e f = elim (dec_lt blk hi) [
    | no p ↦
        ([], blocks_from-end (suc fuel) lo hi blk (omega arith), none_left lo hi blk (omega arith))
    | yes p ↦
        let enough = f p in
        let (cs, same, r) =
          blocks_from-Requested fuel lo hi (blk + block_size) (omega (arith, mod_add blk))
            (λ q. omega arith) in
        (
          call_at lo hi blk ∷ cs,
          blocks_from-step (suc fuel) lo hi blk cs p same,
          next_block lo hi blk cs e r,
        )
  ]

-- For a block size 2 ^ k with k < 64 and an address below 2 ^ 64, for_each_block ends; each byte
-- of the range is requested by exactly one call, which is for the aligned block that has it, and
-- no other byte is requested.
pub for_each_block-Requested :
    (k addr size : ℕ)
    → k < 64
    → addr < 2 ^ 64
    → (cs : List BlockCall) × (for_each_block (2 ^ k) addr size ≡ some cs)
      × ((x : ℕ)
          → addr ≤ x
          → x < addr + size
          → OneBlock (2 ^ k) (round_down_pow2 addr (2 ^ k)) x cs)
      × ((x : ℕ) → (x < addr) ⊎ (addr + size ≤ x) → covering x cs ≡ [])
unfolding for_each_block Results
for_each_block-Requested k addr size hk ha =
    let near = round_down_pow2_nearest k addr hk ha in
    let (cs, e, r) =
      blocks_from-Requested (2 ^ k) (one-le-pow k 2 (omega arith)) (suc size) addr (addr + size)
        (round_down_pow2 addr (2 ^ k)) near.0 (λ q. omega (arith, near)) in
    (cs, e, λ x l h. r.inside x l (omega (arith, near)) h, λ x out. r.outside x (apart x out))
  where
    apart :
        (x : ℕ)
        → (x < addr) ⊎ (addr + size ≤ x)
        → (x < addr) ⊎ ((x < round_down_pow2 addr (2 ^ k)) ⊎ (addr + size ≤ x))
    apart x (inl p) = inl p
    apart x (inr p) = inr (inr p)
